-- ===== src/Prelude/Maps.antt =====
-- C objects that are found by a number: a field of all of them is a function of that number.
use Prim.Native.Nat.{ℕ, zero, suc, ◌+◌, ◌≤◌, ◌<◌}
use mathlib.Core.Path.{◌≡◌, refl}
use mathlib.Core.Logic.{◌≢◌}
use mathlib.Core.Bool.{Bool, true, false}
use native.Mathlib.Omega.{arith}
use native.Mathlib.Decide.{ℕ_discrete}
use ortd.Prelude.Tests.{◌==◌, if◌then◌else◌}

module _ {ℓ} {A : Type ℓ} where
  abbrev pub update : (ℕ → A) → ℕ → A → ℕ → A
  update f b v c = if c == b then v else f c

  abbrev pub update_at : (ℕ → ℕ → A) → ℕ → ℕ → A → ℕ → ℕ → A
  update_at f b p v c q = if c == b then (if q == p then v else f c q) else f c q

-- How many of the numbers below `n` fail the test `f`.
unfoldable pub failing : ℕ → (ℕ → Bool) → ℕ
failing zero f = 0
failing (suc n) f = (if f n then 0 else 1) + failing n f

pub failing-zero : (n : ℕ) (f : ℕ → Bool) (i : ℕ) → failing n f ≡ 0 → i < n → f i ≡ true
unfolding failing
failing-zero zero f i e h = elim h [ ]
failing-zero (suc n) f i e h = elim (ℕ_discrete i n) [
  | yes p ↦ rw p (ground arith)
  | no p ↦ failing-zero n f i (ground arith) (omega arith)
]

-- Two tests that agree below `n` fail equally often.
pub failing-cong :
    (n : ℕ) (f g : ℕ → Bool) → ((i : ℕ) → i < n → f i ≡ g i) → failing n f ≡ failing n g
unfolding failing
failing-cong zero f g h = refl
failing-cong (suc n) f g h = ground (arith, h n, failing-cong n f g (λ i k. h i (omega arith)))

-- A test that is made true at one number below `n` fails once less.
pub failing-update :
    (n : ℕ) (f g : ℕ → Bool) (j : ℕ)
    → j < n
    → f j ≡ false
    → g j ≡ true
    → ((i : ℕ) → i ≢ j → f i ≡ g i)
    → failing n f ≡ suc (failing n g)
unfolding failing
failing-update zero f g j h a b same = elim h [ ]
failing-update (suc n) f g j h a b same = elim (ℕ_discrete j n) [
  | yes p ↦ ground (arith, rw p at a, rw p at b, failing-cong n f g (λ i k. same i (omega arith)))
  | no p ↦ ground (arith, same n (omega arith), failing-update n f g j (omega arith) a b same)
]

pub failing_all : (n : ℕ) (f : ℕ → Bool) → ((i : ℕ) → i < n → f i ≡ false) → failing n f ≡ n
unfolding failing
failing_all zero f h = refl
failing_all (suc n) f h = ground (arith, h n, failing_all n f (λ i k. h i (omega arith)))

pub failing-le : (n : ℕ) (f : ℕ → Bool) → failing n f ≤ n
unfolding failing
failing-le zero f = omega arith
failing-le (suc n) f = ground (arith, failing-le n f)
