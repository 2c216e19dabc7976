-- ===== src/Server/Directory/Name.antt =====
-- The order of `std::string`.
use ortd.Prelude.{ℕ, ◌≡◌, refl, inl, inr, true, false, [], ◌∷◌, arith, Bool-cases}
use ortd.Server.Directory.{Name, before}

pub before_irrefl : (s : Name) → before s s ≡ false
unfolding before
before_irrefl [] = refl
before_irrefl (a ∷ s) = ground (arith, before_irrefl s)

pub before_trans : (s t u : Name) → before s t ≡ true → before t u ≡ true → before s u ≡ true
unfolding before
before_trans [] [] [] p q = cc
before_trans [] (b ∷ t) [] p q = cc
before_trans [] t (c ∷ u) p q = refl
before_trans (a ∷ s) [] u p q = cc
before_trans (a ∷ s) (b ∷ t) [] p q = cc
before_trans (a ∷ s) (b ∷ t) (c ∷ u) p q = ground (arith, before_trans s t u)

tails :
    (a b : ℕ) (s t : Name)
    → before (a ∷ s) (b ∷ t) ≡ false
    → before (b ∷ t) (a ∷ s) ≡ false
    → (a ≡ b) × ((before s t ≡ false) × (before t s ≡ false))
unfolding before
tails a b s t p q = (ground (arith, p, q), (ground (arith, p, q), ground (arith, p, q)))

pub before_connected : (s t : Name) → before s t ≡ false → before t s ≡ false → s ≡ t
unfolding before
before_connected [] [] p q = refl
before_connected [] (b ∷ t) p q = cc
before_connected (a ∷ s) [] p q = cc
before_connected (a ∷ s) (b ∷ t) p q =
    let (e, (p', q')) = tails a b s t p q in rw (e, before_connected s t p' q') refl

pub before_asym : (s t : Name) → before s t ≡ true → before t s ≡ false
before_asym s t p = elim (Bool-cases (before t s)) [
  | inl q ↦ cc (before_trans s t s p q, before_irrefl s)
  | inr q ↦ q
]
