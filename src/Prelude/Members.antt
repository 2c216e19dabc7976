-- ===== src/Prelude/Members.antt =====
-- Predicates on lists by recursion: they compute to tuples and sums, which the tactics read.
use mathlib.Core.Path.{◌≡◌, sym, subst}
use mathlib.Core.Logic.{◌≢◌}
use mathlib.Core.List.{List, [], ◌∷◌, ◌++◌}

abbrev pub All {ℓ κ} : {A : Type ℓ} → (A → Type κ) → List A → Type κ
All P [] = Unit
All P (x ∷ xs) = P x × All P xs

-- `a` stands in the list, at a place that is kept.
pub data InList {ℓ} {A : Type ℓ} (a : A) : List A → Type ℓ where
  here : {x : A} {xs : List A} → a ≡ x → InList a (x ∷ xs)
  there : {x : A} {xs : List A} → InList a xs → InList a (x ∷ xs)

abbrev pub Distinct {ℓ} : {A : Type ℓ} → List A → Type ℓ
Distinct [] = Unit
Distinct (x ∷ xs) = All (λ y. x ≢ y) xs × Distinct xs

module _ {ℓ κ} {A : Type ℓ} (P : A → Type κ) where
  pub All-append : (xs ys : List A) → All P xs → All P ys → All P (xs ++ ys)
  All-append [] ys hx hy = hy
  All-append (x ∷ xs) ys hx hy = (hx.0, All-append xs ys hx.1 hy)

  pub All-InList : {a : A} {xs : List A} → All P xs → InList a xs → P a
  All-InList h (here e) = subst P (sym e) h.0
  All-InList h (there m) = All-InList h.1 m

pub All-map {ℓ κ μ} :
    {A : Type ℓ} {P : A → Type κ} {Q : A → Type μ} (xs : List A)
    → ((x : A) → P x → Q x)
    → All P xs
    → All Q xs
All-map [] f h = tt
All-map (x ∷ xs) f h = (f x h.0, All-map xs f h.1)

module _ {ℓ} {A : Type ℓ} where
  pub InList-left : {a : A} {xs : List A} (ys : List A) → InList a xs → InList a (xs ++ ys)
  InList-left ys (here e) = here e
  InList-left ys (there m) = there (InList-left ys m)

  pub InList-right : {a : A} (xs : List A) {ys : List A} → InList a ys → InList a (xs ++ ys)
  InList-right [] m = m
  InList-right (x ∷ xs) m = there (InList-right xs m)

  -- A new element at the end of a list without repetition.
  pub Distinct-snoc :
      (xs : List A) (a : A) → All (λ x. x ≢ a) xs → Distinct xs → Distinct (xs ++ a ∷ [])
  Distinct-snoc [] a h d = (tt, tt)
  Distinct-snoc (x ∷ xs) a h d =
      (All-append (λ y. x ≢ y) xs (a ∷ []) d.0 (h.0, tt), Distinct-snoc xs a h.1 d.1)
