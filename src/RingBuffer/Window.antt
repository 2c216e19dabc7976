-- ===== src/RingBuffer/Window.antt =====
-- The elements of a memory from an index on, going round at the end.
use native.Mathlib.Nat.{mod-add-mod, mod-eq_of_lt, mod-eq-sub-mod, add-zero}
use ortd.Prelude.{
  ℕ, zero, suc, ◌+◌, ◌-◌, ◌%◌, ◌≤◌, ◌<◌, ◌≡◌, ◌≢◌, refl, sym, ap, ◌∙◌, List, [], ◌∷◌, ◌++◌, length,
  get_or, set, drop, arith, dec_lt, some, get_elem?,
}

module _ (memory : List ℕ) (room : ℕ) where
  abbrev pub window : ℕ → ℕ → List ℕ
  window h zero = []
  window h (suc n) = get_or memory h 0 ∷ window ((h + 1) % room) n

  pub length-window : (h n : ℕ) → length (window h n) ≡ n
  length-window h zero = refl
  length-window h (suc n) = ap suc (length-window ((h + 1) % room) n)

pub get_or-set_self : (xs : List ℕ) (i v : ℕ) → i < length xs → get_or (set xs i v) i 0 ≡ v
get_or-set_self [] i v h = elim h [ ]
get_or-set_self (x ∷ xs) zero v h = refl
get_or-set_self (x ∷ xs) (suc i) v h = get_or-set_self xs i v (omega arith)

pub get_or-set_ne : (xs : List ℕ) (i j v : ℕ) → i ≢ j → get_or (set xs i v) j 0 ≡ get_or xs j 0
get_or-set_ne [] i j v h = refl
get_or-set_ne (x ∷ xs) zero zero v h = absurd (h refl)
get_or-set_ne (x ∷ xs) zero (suc j) v h = refl
get_or-set_ne (x ∷ xs) (suc i) zero v h = refl
get_or-set_ne (x ∷ xs) (suc i) (suc j) v h = get_or-set_ne xs i j v (λ e. h (ap suc e))

pub get_elem?-eq-get_or :
    (xs : List ℕ) (i : ℕ) → i < length xs → get_elem? xs i ≡ some (get_or xs i 0)
get_elem?-eq-get_or [] i h = elim h [ ]
get_elem?-eq-get_or (x ∷ xs) zero h = refl
get_elem?-eq-get_or (x ∷ xs) (suc i) h = get_elem?-eq-get_or xs i (omega arith)

-- Fewer than `room` steps forward do not come back to the start.
pub forward-ne : (room h k : ℕ) → h < room → suc k < room → (h + suc k) % room ≢ h
forward-ne room h k hh hk = elim (dec_lt (h + suc k) room) [
  | yes p ↦ omega (arith, mod-eq_of_lt p)
  | no p ↦ omega (
    arith,
    mod-eq-sub-mod {n = h + suc k} {m = room} (omega arith),
    mod-eq_of_lt {n = h + suc k - room} {m = room} (omega arith),
  )
]

-- Two steps forward, one after the other, are one step.
pub forward-forward : (room h a b c : ℕ) → a + b ≡ c → ((h + a) % room + b) % room ≡ (h + c) % room
forward-forward room h a b c e = rw mod-add-mod (ap (λ k. k % room) (omega arith))

-- A write just behind a window that is not full adds that element to it.
pub window-set :
    (memory : List ℕ) (room x n h i : ℕ)
    → room ≤ length memory
    → h < room
    → n < room
    → i ≡ (h + n) % room
    → window (set memory i x) room h (suc n) ≡ window memory room h n ++ x ∷ []
window-set memory room x zero h i hs hh hn e =
    rw (e, add-zero, mod-eq_of_lt hh, get_or-set_self memory h x (omega arith))
window-set memory room x (suc n) h i hs hh hn e =
    let head : get_or (set memory i x) h 0 ≡ get_or memory h 0 =
      get_or-set_ne memory i h x (rw e (forward-ne room h n hh hn)) in
    let tail : window (set memory i x) room ((h + 1) % room) (suc n)
        ≡ window memory room ((h + 1) % room) n ++ x ∷ [] =
      window-set memory room x n ((h + 1) % room) i hs (omega arith) (omega arith)
        (e ∙ sym (forward-forward room h 1 n (suc n) (omega arith))) in
    rw (head, tail)

-- A window that starts `k` steps later is the longer one with `k` elements dropped.
pub window-drop :
    (memory : List ℕ) (room k h n : ℕ)
    → h < room
    → window memory room ((h + k) % room) n ≡ drop k (window memory room h (k + n))
window-drop memory room zero h n hh =
    rw (add-zero, mod-eq_of_lt hh) (ap (λ m. window memory room h m) (omega arith))
window-drop memory room (suc k) h n hh =
    let e : suc k + n ≡ suc (k + n) = omega arith in
    rw (e, sym (forward-forward room h 1 k (suc k) (omega arith)))
      (window-drop memory room k ((h + 1) % room) n (omega arith))
