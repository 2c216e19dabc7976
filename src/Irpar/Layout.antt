-- ===== src/Irpar/Layout.antt =====
-- What stands where in the vectors that combine_irparam of irpar.sci makes.
use mathlib.Core.List.{append_assoc, append-nil}
use native.Mathlib.Nat.{zero-add, suc-add}
use ortd.Prelude.{
  ℕ, suc, zero, ◌+◌, ◌*◌, List, [], ◌∷◌, ◌++◌, ◌≡◌, refl, sym, ap, ◌∙◌, length, length-append, drop,
  get_elem?, arith,
}
use ortd.Irpar.Combine.{Entry, Merged, merge, add_rows, combine_irparam}

module _ {R : Type 0} where
  -- The header rows of entries that begin at `a` and `b` in the two vectors.
  unfoldable pub rows : ℕ → ℕ → List (Entry R) → List ℕ
  rows a b [] = []
  rows a b (p ∷ ps) =
      p.id
      ∷ p.typ
      ∷ a
      ∷ b
      ∷ length p.ipar
      ∷ length p.rpar
      ∷ rows (a + length p.ipar) (b + length p.rpar) ps

  -- The vectors of all entries, one after the other.
  unfoldable pub ints : List (Entry R) → List ℕ
  ints [] = []
  ints (p ∷ ps) = p.ipar ++ ints ps

  unfoldable pub reals : List (Entry R) → List R
  reals [] = []
  reals (p ∷ ps) = p.rpar ++ reals ps

  -- Where the entries begin, by the length of one of their vectors.
  unfoldable starts : (Entry R → ℕ) → ℕ → List (Entry R) → List ℕ
  starts len a [] = []
  starts len a (p ∷ ps) = a ∷ starts len (a + len p) ps

  merge_lem :
      (ps : List (Entry R)) (m : Merged R)
      → merge ps m ≡ record {
        ipar_ptr = m.ipar_ptr ++ starts (λ p. length p.ipar) (length m.iparges) ps;
        iparges = m.iparges ++ ints ps;
        rpar_ptr = m.rpar_ptr ++ starts (λ p. length p.rpar) (length m.rparges) ps;
        rparges = m.rparges ++ reals ps;
      }
  unfolding merge starts ints reals
  merge_lem [] m = simp append-nil
  merge_lem (p ∷ ps) m = merge_lem ps _ ∙ simp (append_assoc, length-append)

  add_rows_lem :
      (ps : List (Entry R)) (a b : ℕ) (header : List ℕ)
      → add_rows ps (starts (λ p. length p.ipar) a ps) (starts (λ p. length p.rpar) b ps) header
        ≡ header ++ rows a b ps
  unfolding add_rows starts rows
  add_rows_lem [] a b header = rw append-nil
  add_rows_lem (p ∷ ps) a b header =
      add_rows_lem ps (a + length p.ipar) (b + length p.rpar) _ ∙ simp append_assoc

  pub combine_lem :
      (ps : List (Entry R))
      → combine_irparam ps ≡ (1 ∷ length ps ∷ rows 0 0 ps ++ ints ps, reals ps)
  unfolding combine_irparam
  combine_lem ps = simp (merge_lem, add_rows_lem)

  pub length-rows : (a b : ℕ) (ps : List (Entry R)) → length (rows a b ps) ≡ length ps * 6
  unfolding rows
  length-rows a b [] = refl
  length-rows a b (p ∷ ps) = omega (arith, length-rows (a + length p.ipar) (b + length p.rpar) ps)

drop-nil {ℓ} : {A : Type ℓ} (n : ℕ) → drop {A = A} n [] ≡ []
drop-nil zero = refl
drop-nil (suc n) = refl

pub drop-drop {ℓ} : {A : Type ℓ} (n m : ℕ) (xs : List A) → drop n (drop m xs) ≡ drop (m + n) xs
drop-drop n zero xs = rw zero-add
drop-drop n (suc m) [] = drop-nil n ∙ sym (drop-nil (suc m + n))
drop-drop n (suc m) (x ∷ xs) = rw suc-add (drop-drop n m xs)

pub drop_behind {ℓ} : {A : Type ℓ} (xs ys : List A) → drop (length xs) (xs ++ ys) ≡ ys
drop_behind [] ys = refl
drop_behind (x ∷ xs) ys = drop_behind xs ys

-- What stands behind a piece of a vector.
pub drop_past {ℓ} :
    {A : Type ℓ} (m k : ℕ) (mem xs ys : List A)
    → drop m mem ≡ xs ++ ys
    → k ≡ m + length xs
    → drop k mem ≡ ys
drop_past m k mem xs ys e h =
    ap (λ j. drop j mem) h
    ∙ sym (drop-drop (length xs) m mem)
    ∙ ap (drop (length xs)) e
    ∙ drop_behind xs ys

pub get_elem?-drop {ℓ} :
    {A : Type ℓ} (n k : ℕ) (xs : List A) → get_elem? xs (n + k) ≡ get_elem? (drop n xs) k
get_elem?-drop zero k xs = rw zero-add
get_elem?-drop (suc n) k [] = refl
get_elem?-drop (suc n) k (x ∷ xs) = rw suc-add (get_elem?-drop n k xs)
