-- ===== src/Irpar/RoundTrip.antt =====
-- The vectors, matrices, transfer functions and strings that irpar.sci writes, read by irpar.c.
use mathlib.Core.Path.{subst}
use mathlib.Core.List.{append_assoc}
use native.Mathlib.Nat.{add-zero}
use ortd.Prelude.{
  ℕ, suc, ◌+◌, ◌*◌, ◌%◌, ◌<◌, ◌^◌, List, [], ◌∷◌, ◌++◌, ◌≡◌, ◌≢◌, refl, sym, ap, ◌∙◌, length, take,
  drop, get_elem?, Option, none, some, pos, negsuc, arith, All,
}
use ortd.Irpar.{
  Element, Vec, Rmat, Tf, typed, answer, get_element_by_id, get_ivec, get_rvec, get_tf, get_rmat,
  getstr, irpar_ivec,
}
use ortd.Irpar.Combine.{Entry, combine_irparam, ivec, rvec, rmat, tf, container}
use ortd.Irpar.Layout.{ints, drop_past, get_elem?-drop}
use ortd.Irpar.Find.{first, IsFound, get_element_by_id-combine}

take_front {ℓ} : {A : Type ℓ} (xs ys : List A) → take (length xs) (xs ++ ys) ≡ xs
take_front [] ys = refl
take_front (x ∷ xs) ys = ap (λ t. x ∷ t) (take_front xs ys)

-- The set begins with `p`, has the entries `ps` then, and something may stand behind its vectors.
module _ {R : Type 0} (p : Entry R) (ps : List (Entry R)) (more : List ℕ) (more_reals : List R)
    (scratch : Element) (id : ℕ)
    (bound : 2 + suc (length ps) * 6 + length (ints (p ∷ ps)) < 2 ^ 31) where
  abbrev mem : List ℕ
  mem = (combine_irparam (p ∷ ps)).0 ++ more

  abbrev rmem : List R
  rmem = (combine_irparam (p ∷ ps)).1 ++ more_reals

  -- What the functions for one type find at an id.
  record Found (i : ℕ) (q : Entry R) : Type 0 where
    e : Element
    run : get_element_by_id scratch mem id ≡ some (1, e)
    typ : e.typ ≡ q.typ
    int_tail : List ℕ
    int : drop e.ipar_ptr mem ≡ q.ipar ++ int_tail
    real_tail : List R
    real : drop e.rpar_ptr rmem ≡ q.rpar ++ real_tail

  found : {i : ℕ} {q : Entry R} → first 0 id (p ∷ ps) ≡ some (i, q) → Found i q
  unfolding IsFound
  found {i} {q} h =
      let r = get_element_by_id-combine p ps more more_reals scratch id bound in
      let ok = subst (λ o. IsFound mem rmem o r.0) h r.2 in
      record {
        e = r.0.1;
        run = r.1 ∙ ap (λ c. some (c, r.0.1)) ok.0;
        typ = ok.2;
        int_tail = ok.6.0;
        int = ok.6.1;
        real_tail = ok.7.0;
        real = ok.7.1;
      }

  -- An integer of the entry.
  Found-int :
      {i : ℕ} {q : Entry R} (f : Found i q) (k : ℕ)
      → get_elem? mem (f.e.ipar_ptr + k) ≡ get_elem? (q.ipar ++ f.int_tail) k
  Found-int f k = get_elem?-drop f.e.ipar_ptr k mem ∙ ap (λ xs. get_elem? xs k) f.int

  -- An integer vector is read as it was written: its length, and its numbers at the pointer.
  pub get_ivec-combine :
      (i key : ℕ) (v : List ℕ) (ret : Vec)
      → first 0 id (p ∷ ps) ≡ some (i, ivec v key)
      → (r : Vec) × (get_ivec scratch ret mem id ≡ some (pos 0, r))
        × (r.n ≡ length v)
        × (take r.n (drop r.v mem) ≡ v)
  unfolding get_ivec typed answer ivec
  get_ivec-combine i key v ret h =
      let f = found h in
      (
        record { v = f.e.ipar_ptr + 1; n = length v },
        simp (f.run, f.typ, Found-int f),
        refl,
        ap (take (length v))
              (drop_past f.e.ipar_ptr (f.e.ipar_ptr + 1) mem (length v ∷ []) _ f.int refl)
            ∙ take_front v f.int_tail,
      )

  -- A real vector is read as it was written.
  pub get_rvec-combine :
      (i key : ℕ) (v : List R) (ret : Vec)
      → first 0 id (p ∷ ps) ≡ some (i, rvec v key)
      → (r : Vec) × (get_rvec scratch ret mem id ≡ some (pos 0, r))
        × (r.n ≡ length v)
        × (take r.n (drop r.v rmem) ≡ v)
  unfolding get_rvec typed answer rvec
  get_rvec-combine i key v ret h =
      let f = found h in
      (
        record { v = f.e.rpar_ptr; n = length v },
        simp (f.run, f.typ, Found-int f),
        refl,
        ap (take (length v)) f.real ∙ take_front v f.real_tail,
      )

  -- A matrix is read as it was written: its size and its entries.
  pub get_rmat-combine :
      (i key m n : ℕ) (a : List R) (ret : Rmat)
      → first 0 id (p ∷ ps) ≡ some (i, rmat m n a key)
      → length a ≡ m * n
      → (r : Rmat) × (get_rmat scratch ret mem id ≡ some (pos 0, r))
        × (r.m ≡ m)
        × (r.n ≡ n)
        × (take (r.m * r.n) (drop r.v rmem) ≡ a)
  unfolding get_rmat typed answer rmat
  get_rmat-combine i key m n a ret h size =
      let f = found h in
      (
        record { v = f.e.rpar_ptr; n = n; m = m },
        simp (f.run, f.typ, Found-int f),
        refl,
        refl,
        rw (sym size) (ap (take (length a)) f.real ∙ take_front a f.real_tail),
      )

  -- A transfer function is read as it was written: its degrees, and the coefficients of the
  -- numerator and the denominator at the two pointers.
  pub get_tf-combine :
      (i key : ℕ) (degnum degden : ℕ) (num den : List R) (ret : Tf)
      → first 0 id (p ∷ ps) ≡ some (i, tf degnum degden num den key)
      → length num ≡ suc degnum
      → length den ≡ suc degden
      → length num < 2 ^ 31
      → (r : Tf) × (get_tf scratch ret mem id ≡ some (pos 0, r))
        × (r.degnum ≡ degnum)
        × (r.degden ≡ degden)
        × (take (suc r.degnum) (drop r.num rmem) ≡ num)
        × (take (suc r.degden) (drop r.den rmem) ≡ den)
  unfolding get_tf typed answer tf
  get_tf-combine i key degnum degden num den ret h ln ld small =
      let f = found h in
      let fits : (degnum + 1) % 2 ^ 32 ≡ length num = omega arith in
      let den_tail = den ++ f.real_tail in
      let whole : drop f.e.rpar_ptr rmem ≡ num ++ den_tail =
        f.real ∙ append_assoc num den f.real_tail in
      (
        record {
          num = f.e.rpar_ptr + 0;
          den = f.e.rpar_ptr + (degnum + 1) % 2 ^ 32;
          degnum = degnum;
          degden = degden;
        },
        simp (f.run, f.typ, Found-int f),
        refl,
        refl,
        rw (sym ln, add-zero) (ap (take (length num)) whole ∙ take_front num den_tail),
        rw (sym ld, fits)
            (ap (take (length den))
                (drop_past f.e.rpar_ptr (f.e.rpar_ptr + length num) rmem num den_tail whole refl)
              ∙ take_front den f.real_tail),
      )

  typed_other :
      {typ : ℕ} (r : ℕ × Element) (o : Option (ℕ × Entry R))
      → IsFound mem rmem o r
      → ((i : ℕ) (q : Entry R) → o ≡ some (i, q) → q.typ ≢ typ)
      → typed typ r ≡ none
  unfolding typed IsFound
  typed_other r none ok other = rw (ok.0) refl
  typed_other r (some (i, q)) ok other = rw (ok.0, ok.2) (ground (arith, other i q refl))

  -- With no entry for the id, or one of another type, `irpar_get_ivec` answers -1 and leaves the
  -- caller's structure alone.
  pub get_ivec-combine_other :
      (ret : Vec)
      → ((i : ℕ) (q : Entry R) → first 0 id (p ∷ ps) ≡ some (i, q) → q.typ ≢ irpar_ivec)
      → get_ivec scratch ret mem id ≡ some (negsuc 0, ret)
  unfolding get_ivec answer
  get_ivec-combine_other ret other =
      let r = get_element_by_id-combine p ps more more_reals scratch id bound in
      rw (r.1, typed_other r.0 (first 0 id (p ∷ ps)) r.2 other) refl

  getstr_lem :
      (par : List ℕ) (i : ℕ) (cs t : List ℕ)
      → drop i par ≡ cs ++ t
      → All (λ c. c < 256) cs
      → getstr par i (length cs) ≡ some (cs ++ 0 ∷ [])
  unfolding getstr
  getstr_lem par i [] t e small = refl
  getstr_lem par i (c ∷ cs) t e small =
      let read : get_elem? par i ≡ some c =
        ap (get_elem? par) (omega arith) ∙ get_elem?-drop i 0 par ∙ ap (λ xs. get_elem? xs 0) e in
      let byte : c % 256 ≡ c = omega (arith, small.0) in
      rw
        (
          read,
          getstr_lem par (suc i) cs t (drop_past i (suc i) par (c ∷ []) (cs ++ t) e (omega arith))
              small.1,
          byte,
        )
        refl

  -- A string of one-byte characters, written as an integer vector and read with `irpar_getstr`, comes
  -- back with its end mark.
  pub getstr-get_ivec-combine :
      (i key : ℕ) (str : List ℕ) (ret : Vec)
      → first 0 id (p ∷ ps) ≡ some (i, ivec str key)
      → All (λ c. c < 256) str
      → (r : Vec) × (get_ivec scratch ret mem id ≡ some (pos 0, r))
        × (getstr (drop r.v mem) 0 r.n ≡ some (str ++ 0 ∷ []))
  unfolding get_ivec typed answer ivec
  getstr-get_ivec-combine i key str ret h small =
      let f = found h in
      (
        record { v = f.e.ipar_ptr + 1; n = length str },
        simp (f.run, f.typ, Found-int f),
        getstr_lem _ 0 str f.int_tail
            (drop_past f.e.ipar_ptr (f.e.ipar_ptr + 1) mem (length str ∷ []) _ f.int refl) small,
      )

-- A set may stand in a container of another set: with the pointers that the container gives, the
-- entries of the inner set are found as if it stood alone.
module _ {R : Type 0} (p : Entry R) (ps : List (Entry R)) (more : List ℕ) (more_reals : List R)
    (scratch : Element) (outer : ℕ)
    (bound : 2 + suc (length ps) * 6 + length (ints (p ∷ ps)) < 2 ^ 31) where
  -- The container with the id `outer` is found, and what it points to answers for every `id` as the
  -- set inside it does.
  pub get_element_by_id-container :
      (i key : ℕ) (q : Entry R) (qs : List (Entry R)) (id : ℕ)
      → first 0 outer (p ∷ ps) ≡ some (i, container (combine_irparam (q ∷ qs)) key)
      → 2 + suc (length qs) * 6 + length (ints (q ∷ qs)) < 2 ^ 31
      → let set = combine_irparam (p ∷ ps) in
        (e : Element) × (r : ℕ × Element) × (get_element_by_id scratch (set.0 ++ more) outer
          ≡ some (1, e))
        × (get_element_by_id scratch (drop e.ipar_ptr (set.0 ++ more)) id ≡ some r)
        × IsFound
            (drop e.ipar_ptr (set.0 ++ more))
            (drop e.rpar_ptr (set.1 ++ more_reals))
            (first 0 id (q ∷ qs))
            r
  unfolding container
  get_element_by_id-container i key q qs id h inner =
      let f = found p ps more more_reals scratch outer bound h in
      let r = get_element_by_id-combine q qs f.int_tail f.real_tail scratch id inner in
      (f.e, r.0, f.run, rw (f.int) r.1, rw (f.int, f.real) r.2)
