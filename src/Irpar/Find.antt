-- ===== src/Irpar/Find.antt =====
-- irpar_get_element and irpar_get_element_by_id on the vectors that combine_irparam made.
use mathlib.Core.List.{append_assoc}
use mathlib.Core.Path.{subst}
use ortd.Prelude.{
  ℕ, suc, zero, ◌+◌, ◌*◌, ◌<◌, ◌^◌, List, [], ◌∷◌, ◌++◌, ◌≡◌, ◌≢◌, refl, sym, ap, ◌∙◌, length,
  length-append, drop, get_elem?, Option, none, some, if◌then◌else◌, ◌==◌, arith, add32, ℕ_discrete,
}
use ortd.Irpar.{Element, rows_len, get_nele, get_element, find_id, get_element_by_id}
use ortd.Irpar.Combine.{Entry, combine_irparam}
use ortd.Irpar.Layout.{rows, ints, reals, combine_lem, length-rows, drop_past, get_elem?-drop}

rows_len-eq : (n : ℕ) → 2 + n * 6 < 2 ^ 31 → rows_len n ≡ 2 + n * 6
unfolding rows_len
rows_len-eq n h = omega arith

-- A row is read as it stands.
get_element-row :
    (ret : Element) (mem : List ℕ) (i n id typ ip rp il rl : ℕ) (t : List ℕ)
    → drop (2 + i * 6) mem ≡ id ∷ typ ∷ ip ∷ rp ∷ il ∷ rl ∷ t
    → get_nele mem ≡ some n
    → i < n
    → 2 + n * 6 + ip < 2 ^ 31
    → get_element ret mem i
      ≡ some (record {
        id = id;
        typ = typ;
        ipar_ptr = 2 + n * 6 + ip;
        rpar_ptr = rp;
        rpar_len = il;
        ipar_len = rl;
        setindex = ret.setindex;
      })
unfolding get_element
get_element-row ret mem i n id typ ip rp il rl t e ne h b =
    let fits : add32 ip (2 + n * 6) ≡ 2 + n * 6 + ip = omega arith in
    let field : (k : ℕ)
        → get_elem? mem (2 + i * 6 + k) ≡ get_elem? (id ∷ typ ∷ ip ∷ rp ∷ il ∷ rl ∷ t) k =
      λ k. get_elem?-drop (2 + i * 6) k mem ∙ ap (λ xs. get_elem? xs k) e in
    simp (ne, rows_len-eq i (omega arith), rows_len-eq n (omega arith), field, fits)

-- One round of the loop: the entry is found, it was the last one, or the loop goes on.
module _ (fuel : ℕ) (ret e : Element) (mem : List ℕ) (id i n : ℕ)
    (read : get_element ret mem i ≡ some e) (en : get_nele mem ≡ some n) (small : n < 2 ^ 31) where
  find_id_here : e.id ≡ id → find_id (suc fuel) ret mem id i ≡ some (1, record e { setindex = i })
  unfolding find_id
  find_id_here h = rw (read, en) (ground (arith, h))

  find_id_last :
      e.id ≢ id → suc i ≡ n → find_id (suc fuel) ret mem id i ≡ some (0, record e { typ = 0 })
  unfolding find_id
  find_id_last h l = rw (read, en) (ground (arith, h))

  find_id_next :
      e.id ≢ id → suc i < n → find_id (suc fuel) ret mem id i ≡ find_id fuel e mem id (suc i)
  unfolding find_id
  find_id_next h l = rw (read, en) (ground (arith, h))

module _ {R : Type 0} where
  -- The first entry with an id, and its place, counted from `i` on.
  unfoldable pub first : ℕ → ℕ → List (Entry R) → Option (ℕ × Entry R)
  first i id [] = none
  first i id (p ∷ ps) = if p.id == id then some (i, p) else first (suc i) id ps

  -- What the caller gets for an entry: its number, its type, its lengths (each in the other's field)
  -- and pointers behind which its vectors stand.
  unfoldable pub IsFound : List ℕ → List R → Option (ℕ × Entry R) → ℕ × Element → Type 0
  IsFound mem rmem none (err, e) = (err ≡ 0) × (e.typ ≡ 0)
  IsFound mem rmem (some (i, p)) (err, e) =
      (err ≡ 1)
      × (e.id ≡ p.id)
      × (e.typ ≡ p.typ)
      × (e.setindex ≡ i)
      × (e.rpar_len ≡ length p.ipar)
      × (e.ipar_len ≡ length p.rpar)
      × ((t : List ℕ) × (drop e.ipar_ptr mem ≡ p.ipar ++ t))
      × ((t : List R) × (drop e.rpar_ptr rmem ≡ p.rpar ++ t))

  first_here :
      (i id : ℕ) (p : Entry R) (ps : List (Entry R)) → p.id ≡ id → first i id (p ∷ ps) ≡ some (i, p)
  unfolding first
  first_here i id p ps h = ground arith

  first_next :
      (i id : ℕ) (p : Entry R) (ps : List (Entry R))
      → p.id ≢ id
      → first i id (p ∷ ps) ≡ first (suc i) id ps
  unfolding first
  first_next i id p ps h = ground arith

  -- What `get_element` gives for an entry, in a set of `n` entries.
  abbrev entry_element : ℕ → ℕ → ℕ → ℕ → Entry R → Element
  entry_element setindex n a b p = record {
    id = p.id;
    typ = p.typ;
    ipar_ptr = 2 + n * 6 + a;
    rpar_ptr = b;
    rpar_len = length p.ipar;
    ipar_len = length p.rpar;
    setindex = setindex;
  }

  -- The entry `p` and then `ps`, the rest of a set of `n` entries, stand from row `i` on.
  record Stands (mem : List ℕ) (rmem : List R) (n i a b : ℕ) (p : Entry R) (ps : List (Entry R))
      : Type 0 where
    tail : List ℕ
    row : drop (2 + i * 6) mem ≡ rows a b (p ∷ ps) ++ tail
    int_tail : List ℕ
    int : drop (2 + n * 6 + a) mem ≡ ints (p ∷ ps) ++ int_tail
    real_tail : List R
    real : drop b rmem ≡ reals (p ∷ ps) ++ real_tail
    nele : get_nele mem ≡ some n
    count : i + suc (length ps) ≡ n
    bound : 2 + n * 6 + a + length (ints (p ∷ ps)) < 2 ^ 31

  module _ {mem : List ℕ} {rmem : List R} {n i a b : ℕ} {p : Entry R} {ps : List (Entry R)}
      (s : Stands mem rmem n i a b p ps) where
    stands_read :
        (ret : Element) → get_element ret mem i ≡ some (entry_element ret.setindex n a b p)
    unfolding rows ints
    stands_read ret =
        get_element-row ret mem i n p.id p.typ a b (length p.ipar) (length p.rpar) _ s.row s.nele
          (omega (arith, s.count)) (omega (arith, s.bound, length-append p.ipar (ints ps)))

    stands_int : drop (2 + n * 6 + a) mem ≡ p.ipar ++ (ints ps ++ s.int_tail)
    unfolding ints
    stands_int = s.int ∙ append_assoc p.ipar (ints ps) s.int_tail

    stands_real : drop b rmem ≡ p.rpar ++ (reals ps ++ s.real_tail)
    unfolding reals
    stands_real = s.real ∙ append_assoc p.rpar (reals ps) s.real_tail

    stands-IsFound :
        (id : ℕ) → p.id ≡ id → IsFound mem rmem (first i id (p ∷ ps)) (1, entry_element i n a b p)
    unfolding IsFound
    stands-IsFound id same =
        subst (λ o. IsFound mem rmem o (1, entry_element i n a b p))
          (sym (first_here i id p ps same))
          (refl, refl, refl, refl, refl, refl, (_, stands_int), (_, stands_real))

  Stands-next :
      {mem : List ℕ} {rmem : List R} {n i a b : ℕ} {p q : Entry R} {qs : List (Entry R)}
      → Stands mem rmem n i a b p (q ∷ qs)
      → Stands mem rmem n (suc i) (a + length p.ipar) (b + length p.rpar) q qs
  unfolding rows ints reals
  Stands-next {mem} {rmem} {n} {i} {a} {b} {p} {q} {qs} s = record {
    tail = s.tail;
    row =
        drop_past (2 + i * 6) (2 + suc i * 6) mem
          (p.id ∷ p.typ ∷ a ∷ b ∷ length p.ipar ∷ length p.rpar ∷ []) _ s.row (omega arith);
    int_tail = s.int_tail;
    int =
        drop_past (2 + n * 6 + a) (2 + n * 6 + (a + length p.ipar)) mem p.ipar _ (stands_int s)
          (omega arith);
    real_tail = s.real_tail;
    real = drop_past b (b + length p.rpar) rmem p.rpar _ (stands_real s) refl;
    nele = s.nele;
    count = omega (arith, s.count);
    bound = omega (arith, s.bound, length-append p.ipar (ints (q ∷ qs)));
  }

  -- The loop from entry `i` on.
  find_id-rows :
      (fuel : ℕ) (ret : Element) {mem : List ℕ} {rmem : List R} (id : ℕ) {n i a b : ℕ} {p : Entry R}
      (ps : List (Entry R))
      → Stands mem rmem n i a b p ps
      → length ps < fuel
      → (r : ℕ × Element) × (find_id fuel ret mem id i ≡ some r)
        × IsFound mem rmem (first i id (p ∷ ps)) r
  unfolding IsFound first
  find_id-rows zero ret id ps s f = elim f [ ]
  find_id-rows (suc fuel) ret {mem} {rmem} id {n} {i} {a} {b} {p} [] s f =
      let e = entry_element ret.setindex n a b p in
      elim (ℕ_discrete p.id id) [
        | yes same ↦ (
          (1, entry_element i n a b p),
          find_id_here fuel ret e mem id i n (stands_read s ret) s.nele (omega (arith, s.bound))
              same,
          stands-IsFound s id same,
        )
        | no other ↦ (
          (0, record e { typ = 0 }),
          find_id_last fuel ret e mem id i n (stands_read s ret) s.nele (omega (arith, s.bound))
              other (omega (arith, s.count)),
          subst (λ o. IsFound mem rmem o (0, record e { typ = 0 }))
              (sym (first_next i id p [] other)) (refl, refl),
        )
      ]
  find_id-rows (suc fuel) ret {mem} {rmem} id {n} {i} {a} {b} {p} (q ∷ qs) s f =
      let e = entry_element ret.setindex n a b p in
      elim (ℕ_discrete p.id id) [
        | yes same ↦ (
          (1, entry_element i n a b p),
          find_id_here fuel ret e mem id i n (stands_read s ret) s.nele (omega (arith, s.bound))
              same,
          stands-IsFound s id same,
        )
        | no other ↦
            let rest = find_id-rows fuel e id qs (Stands-next s) (omega arith) in
            (
              rest.0,
              find_id_next fuel ret e mem id i n (stands_read s ret) s.nele (omega (arith, s.bound))
                    other (omega (arith, s.count))
                  ∙ rest.1,
              subst (λ o. IsFound mem rmem o rest.0) (sym (first_next i id p (q ∷ qs) other))
                  rest.2,
            )
      ]

  combine-Stands :
      (p : Entry R) (ps : List (Entry R)) (more : List ℕ) (more_reals : List R)
      → 2 + suc (length ps) * 6 + length (ints (p ∷ ps)) < 2 ^ 31
      → Stands
          (1 ∷ suc (length ps) ∷ (rows 0 0 (p ∷ ps) ++ ints (p ∷ ps)) ++ more)
          (reals (p ∷ ps) ++ more_reals)
          (suc (length ps))
          0
          0
          0
          p
          ps
  unfolding get_nele
  combine-Stands p ps more more_reals bound =
      let all = append_assoc (rows 0 0 (p ∷ ps)) (ints (p ∷ ps)) more in
      record {
        tail = ints (p ∷ ps) ++ more;
        row = all;
        int_tail = more;
        int =
            drop_past 2 (2 + suc (length ps) * 6 + 0) _ (rows 0 0 (p ∷ ps)) _ all
              (omega (arith, length-rows 0 0 (p ∷ ps)));
        real_tail = more_reals;
        real = refl;
        nele = refl;
        count = omega arith;
        bound = omega (arith, bound);
      }

  -- What a caller of `get_element_by_id` gets from a merged set, whatever stands behind its vectors.
  pub get_element_by_id-combine :
      (p : Entry R) (ps : List (Entry R)) (more : List ℕ) (more_reals : List R) (ret : Element)
      (id : ℕ)
      → 2 + suc (length ps) * 6 + length (ints (p ∷ ps)) < 2 ^ 31
      → let set = combine_irparam (p ∷ ps) in
        (r : ℕ × Element) × (get_element_by_id ret (set.0 ++ more) id ≡ some r)
        × IsFound (set.0 ++ more) (set.1 ++ more_reals) (first 0 id (p ∷ ps)) r
  unfolding get_element_by_id get_nele
  get_element_by_id-combine p ps more more_reals ret id bound =
      let there = combine-Stands p ps more more_reals bound in
      rw combine_lem (
        find_id-rows _ ret id ps there (
          omega (
            arith,
            length-rows 0 0 (p ∷ ps),
            length-append (rows 0 0 (p ∷ ps) ++ ints (p ∷ ps)) more,
            length-append (rows 0 0 (p ∷ ps)) (ints (p ∷ ps)),
          )))
