-- ===== src/Prelude/Copy.antt =====
-- `memcpy`, and the loops of the blocks that copy a number of elements one by one: element by
-- element, with `none` for an access outside of the source or of the destination.
use mathlib.Core.Path.{subst}
use native.Mathlib.Decide.{ℕ_discrete}
use ortd.Prelude.{
  Option-cases, inl, inr, dec_lt, le→ltb_false, ℕ, zero, suc, ◌+◌, ◌-◌, ◌≤◌, ◌<◌, ◌≡◌, refl, ◌∙◌,
  sym, Option, none, some, List, [], ◌∷◌, ◌>>=◌, lt→ltb, ltb, if◌then◌else◌, length, length-set,
  set, get_elem?, get_elem?-set_self, get_elem?-set_ne, arith,
}

-- A write through a pointer.
abbrev pub store {ℓ} : {A : Type ℓ} → List A → ℕ → A → Option (List A)
store dst d x = if ltb d (length dst) then some (set dst d x) else none

-- `n` elements of `src` from place `s` on to `dst` from place `d` on.
unfoldable pub copy {ℓ} : {A : Type ℓ} → ℕ → List A → ℕ → List A → ℕ → Option (List A)
copy zero src s dst d = some dst
copy (suc n) src s dst d =
    get_elem? src s >>= λ x. store dst d x >>= λ dst'. copy n src (suc s) dst' (suc d)

-- The places from `d` on hold the copied elements, and the others what they held.
pub record IsCopied {ℓ} {A : Type ℓ} (n : ℕ) (src : List A) (s : ℕ) (dst : List A) (d : ℕ)
    (r : List A) : Type ℓ where
  pub size : length r ≡ length dst
  pub copied : (i : ℕ) → i < n → get_elem? r (d + i) ≡ get_elem? src (s + i)
  pub before : (i : ℕ) → i < d → get_elem? r i ≡ get_elem? dst i
  pub behind : (i : ℕ) → d + n ≤ i → get_elem? r i ≡ get_elem? dst i

pub get_elem?-lt {ℓ} :
    {A : Type ℓ} (xs : List A) (i : ℕ) → i < length xs → (x : A) × (get_elem? xs i ≡ some x)
get_elem?-lt [] i h = elim h [ ]
get_elem?-lt (x ∷ xs) zero h = (x, refl)
get_elem?-lt (x ∷ xs) (suc i) h = get_elem?-lt xs i (omega arith)

module _ {ℓ} {A : Type ℓ} where
  -- One round, and the others by what they do.
  copy_step :
      (n : ℕ) (src : List A) (s : ℕ) (dst : List A) (d : ℕ) (x : A) (r : List A)
      → get_elem? src s ≡ some x
      → d < length dst
      → IsCopied n src (suc s) (set dst d x) (suc d) r
      → IsCopied (suc n) src s dst d r
  copy_step n src s dst d x r e h c = record {
    size = c.size ∙ length-set dst d x;
    copied = copied;
    before = λ i k. c.before i (omega arith) ∙ get_elem?-set_ne dst {i = d} {j = i} x (omega arith);
    behind = λ i k. c.behind i (omega arith) ∙ get_elem?-set_ne dst {i = d} {j = i} x (omega arith);
  }
    where
      copied : (i : ℕ) → i < suc n → get_elem? r (d + i) ≡ get_elem? src (s + i)
      copied zero k =
          let ed : d + 0 ≡ d = omega arith in
          let es : s + 0 ≡ s = omega arith in
          rw (ed, es) (c.before d (omega arith) ∙ get_elem?-set_self dst d x h ∙ sym e)
      copied (suc i) k =
          let ed : d + suc i ≡ suc d + i = omega arith in
          let es : s + suc i ≡ suc s + i = omega arith in rw (ed, es) (c.copied i (omega arith))

  pub copy_lem :
      (n : ℕ) (src : List A) (s : ℕ) (dst : List A) (d : ℕ)
      → s + n ≤ length src
      → d + n ≤ length dst
      → (r : List A) × (copy n src s dst d ≡ some r) × IsCopied n src s dst d r
  unfolding copy
  copy_lem zero src s dst d hs hd = (
    dst,
    refl,
    record { size = refl; copied = λ i k. elim k [ ]; before = λ i k. refl; behind = λ i k. refl },
  )
  copy_lem (suc n) src s dst d hs hd =
      let (x, e) = get_elem?-lt src s (omega arith) in
      let (r, er, c) =
        copy_lem n src (suc s) (set dst d x) (suc d) (omega arith)
          (omega (arith, length-set dst d x)) in
      (
        r,
        rw (e, lt→ltb d (length dst) (omega arith)) er,
        copy_step n src s dst d x r e (omega arith) c,
      )

-- The loop that sets `n` elements from place `d` on.
unfoldable pub fill {ℓ} : {A : Type ℓ} → ℕ → List A → ℕ → A → Option (List A)
fill zero dst d x = some dst
fill (suc n) dst d x = store dst d x >>= λ dst'. fill n dst' (suc d) x

pub record IsFilled {ℓ} {A : Type ℓ} (n : ℕ) (x : A) (dst : List A) (d : ℕ) (r : List A)
    : Type ℓ where
  pub size : length r ≡ length dst
  pub filled : (i : ℕ) → d ≤ i → i < d + n → get_elem? r i ≡ some x
  pub before : (i : ℕ) → i < d → get_elem? r i ≡ get_elem? dst i
  pub behind : (i : ℕ) → d + n ≤ i → get_elem? r i ≡ get_elem? dst i

module _ {ℓ} {A : Type ℓ} where
  fill_step :
      (n : ℕ) (x : A) (dst : List A) (d : ℕ) (r : List A)
      → d < length dst
      → IsFilled n x (set dst d x) (suc d) r
      → IsFilled (suc n) x dst d r
  fill_step n x dst d r h c = record {
    size = c.size ∙ length-set dst d x;
    filled = λ i k l. elim (ℕ_discrete d i) [
      | yes e ↦
          subst (λ (j : ℕ). get_elem? r j ≡ some x) e
            (c.before d (omega arith) ∙ get_elem?-set_self dst d x h)
      | no e ↦ c.filled i (omega arith) (omega arith)
    ];
    before = λ i k. c.before i (omega arith) ∙ get_elem?-set_ne dst {i = d} {j = i} x (omega arith);
    behind = λ i k. c.behind i (omega arith) ∙ get_elem?-set_ne dst {i = d} {j = i} x (omega arith);
  }

  pub fill_lem :
      (n : ℕ) (x : A) (dst : List A) (d : ℕ)
      → d + n ≤ length dst
      → (r : List A) × (fill n dst d x ≡ some r) × IsFilled n x dst d r
  unfolding fill
  fill_lem zero x dst d h = (
    dst,
    refl,
    record {
      size = refl;
      filled = λ i k l. absurd (omega arith);
      before = λ i k. refl;
      behind = λ i k. refl;
    },
  )
  fill_lem (suc n) x dst d h =
      let (r, e, c) = fill_lem n x (set dst d x) (suc d) (omega (arith, length-set dst d x)) in
      (r, rw (lt→ltb d (length dst) (omega arith)) e, fill_step n x dst d r (omega arith) c)

-- Where all is copied from the beginning on.
pub IsCopied-whole {ℓ} :
    {A : Type ℓ} {n : ℕ} {src dst r : List A} (i : ℕ)
    → IsCopied n src 0 dst 0 r
    → i < n
    → get_elem? r i ≡ get_elem? src i
IsCopied-whole {src = src} {r = r} i c h =
    let e : 0 + i ≡ i = omega arith in
    subst (λ (k : ℕ). get_elem? r k ≡ get_elem? src k) e (c.copied i h)

-- A copy that does not fit into the destination makes an access outside.
pub copy_outside {ℓ} :
    {A : Type ℓ} (n : ℕ) (src : List A) (s : ℕ) (dst : List A) (d : ℕ)
    → length dst < d + n
    → 0 < n
    → copy n src s dst d ≡ none
unfolding copy
copy_outside zero src s dst d h k = elim k [ ]
copy_outside (suc n) src s dst d h k = elim (Option-cases (get_elem? src s)) [
  | inl e ↦ rw e
  | inr (x, e) ↦ rw e (elim (dec_lt d (length dst)) [
    | yes p ↦ rw (lt→ltb d (length dst) p) (
        copy_outside n src (suc s) (set dst d x) (suc d) (omega (arith, length-set dst d x))
          (omega arith))
    | no p ↦ rw (le→ltb_false {a = d} {b = length dst} (omega arith))
  ])
]

-- The element at place `i` is that as far from `s` on as `i` from `d`.
pub IsCopied-at {ℓ} :
    {A : Type ℓ} {n : ℕ} {src : List A} {s : ℕ} {dst : List A} {d : ℕ} {r : List A} (i j : ℕ)
    → IsCopied n src s dst d r
    → d ≤ i
    → i < d + n
    → s + i ≡ j + d
    → get_elem? r i ≡ get_elem? src j
IsCopied-at {src = src} {s = s} {d = d} {r = r} i j c h k e =
    let to_i : d + (i - d) ≡ i = omega arith in
    let to_j : s + (i - d) ≡ j = omega arith in
    subst (λ (x : ℕ). get_elem? r x ≡ get_elem? src j) to_i
      (subst (λ (x : ℕ). get_elem? r (d + (i - d)) ≡ get_elem? src x) to_j
        (c.copied (i - d) (omega arith)))
