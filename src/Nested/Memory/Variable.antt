-- ===== src/Nested/Memory/Variable.antt =====
-- The block that writes a variable number of elements.
use native.Mathlib.Nat.{mod-eq_of_lt, le-div_iff_mul-le}
use ortd.Prelude.{
  ℕ, zero, suc, ◌+◌, ◌-◌, ◌*◌, ◌%◌, ◌^◌, ◌≤◌, ◌<◌, ◌≡◌, refl, sym, ◌∙◌, ap, ◌⊎◌, inl, inr, false,
  none, some, List, length, arith, word, ℤ, pos, negsuc, ◌-ℤ◌, Bool-cases,
}
use ortd.Prelude.Copy.{copy_lem, copy_outside}
use ortd.Nested.Memory.{PersistentMemory, copied_elements, write2_output, out_of_range2, unsigned}
use ortd.Nested.Memory.Access.{
  IsValid, IsWritten, IsWritten-IsValid, copied_elements-le, num-lt, le-mul,
}

-- What the test of the range leaves for a number of elements that is not negative.
in_range2 :
    (max : ℕ) (index : ℤ) (k : ℕ) (m : PersistentMemory)
    → m.data_num_elements + 1 < 2 ^ 31
    → k < 2 ^ 31
    → out_of_range2 (pos max) index (pos k) m ≡ false
    → (c : ℕ) × (index ≡ pos (suc c)) × (c + k ≤ m.data_num_elements) × (k ≤ max)
unfolding out_of_range2
in_range2 max (pos zero) k m h hk e = absurd (ground arith)
in_range2 max (pos (suc c)) k m h hk e = (c, refl, ground arith, ground arith)
in_range2 max (negsuc c) k m h hk e = absurd (ground arith)

unsigned_pos : (k : ℕ) → k < word → unsigned (pos k) ≡ k
unfolding unsigned
unsigned_pos k h = mod-eq_of_lt h

minus_one : (c : ℕ) → pos (suc c) -ℤ pos 1 ≡ pos c
unfolding ◌-ℤ◌
minus_one c = ground arith

-- The elements fit into the memory, from the place before the index on, and into the input port.
abbrev pub Fits : ℕ → ℤ → ℕ → PersistentMemory → ℕ → Type 0
Fits max index k m c = (index ≡ pos (suc c)) × (c + k ≤ m.data_num_elements) × (k ≤ max)

out_of_range2-Fits :
    (max k c : ℕ) (index : ℤ) (m : PersistentMemory)
    → m.data_num_elements + 1 < 2 ^ 31
    → k < 2 ^ 31
    → Fits max index k m c
    → out_of_range2 (pos max) index (pos k) m ≡ false
unfolding out_of_range2
out_of_range2-Fits max k c index m h hk (e, inside, room) = rw e (ground arith)

-- A write of `k` elements, not negative, from a port of `max` elements to a valid memory makes no
-- access outside. Where the elements do not fit into the memory, from the index, counted from 1, on, or
-- are more than the port has, nothing is changed. Otherwise they are written at the index, and the
-- others are kept.
pub write2_output_lem :
    {m : PersistentMemory} (max : ℕ) (index : ℤ) (k : ℕ) (input : List ℕ)
    → IsValid m
    → k < 2 ^ 31
    → length input ≡ max
    → (((c : ℕ) → ¬ Fits max index k m c)
        × (write2_output (pos max) input index (pos k) m ≡ some m))
      ⊎ ((c : ℕ) × (m' : PersistentMemory) × Fits max index k m c
          × (write2_output (pos max) input index (pos k) m ≡ some m')
          × IsValid m'
          × IsWritten k input c m m')
unfolding write2_output
write2_output_lem {m} max index k input v hk e =
    elim (Bool-cases (out_of_range2 (pos max) index (pos k) m)) [
      | inl out ↦
          inl (
            (λ c f. cc (sym out ∙ out_of_range2-Fits max k c index m (num-lt v) hk f)),
            rw out refl,
          )
      | inr fits ↦
          let (c, at, inside, room) = in_range2 max index k m (num-lt v) hk fits in
          inr (written c (at, inside, room) fits)
    ]
  where
    written :
        (c : ℕ)
        → Fits max index k m c
        → out_of_range2 (pos max) index (pos k) m ≡ false
        → (c : ℕ) × (m' : PersistentMemory) × Fits max index k m c
          × (write2_output (pos max) input index (pos k) m ≡ some m')
          × IsValid m'
          × IsWritten k input c m m'
    written c (at, inside, room) fits =
        let (cells, r, w) =
          copy_lem k input 0 m.data_ptr c (omega arith) (omega (arith, v.size, inside)) in
        let done : IsWritten k input c m (record m { data_ptr = cells }) = record {
          num = refl;
          element = refl;
          cells = w;
        } in
        (
          c,
          record m { data_ptr = cells },
          (at, inside, room),
          rw (
            fits,
            at,
            minus_one c,
            unsigned_pos k (omega arith),
            copied_elements-le m k v (omega arith),
            r,
          ),
          IsWritten-IsValid done v,
          done,
        )

-- The bytes of a negative number of elements, as a word.
negative_elements :
    (m : PersistentMemory) (k : ℕ)
    → IsValid m
    → (k + 2) * m.data_element_size < 2 ^ 31
    → m.data_num_elements < copied_elements m (unsigned (negsuc k))
unfolding copied_elements unsigned
negative_elements m k v h =
    let size = m.data_element_size in
    let small : k < 2 ^ 31 = omega (arith, le-mul (k + 2) size v.element) in
    let w : ℕ = word - 1 - k in
    let total : w * size + (k + 1) * size ≡ word * size =
      omega (arith, ap (λ (t : ℕ). t * size) (whole k small)) in
    let bytes : (w * size) % word ≡ word - (k + 1) * size = omega arith in
    rw
      (
        mod-eq_of_lt {n = k} {m = word} (omega arith),
        mod-eq_of_lt {n = w} {m = word} (omega arith),
        bytes,
      )
      ((le-div_iff_mul-le v.element).1 (omega (arith, v.bytes)))
  where
    whole : (k : ℕ) → k < 2 ^ 31 → (word - 1 - k) + (k + 1) ≡ word
    whole k h = omega arith

passes :
    (max_elements k : ℕ) (m : PersistentMemory)
    → m.data_num_elements + k + 2 < 2 ^ 31
    → out_of_range2 (pos max_elements) (pos 1) (negsuc k) m ≡ false
unfolding out_of_range2
passes max_elements k m h = ground arith

-- With the number of elements -(k + 1) at the first index, `max_elements` not negative, and both
-- (k + 2) elements and the memory below 2 ^ 31 bytes, the test of the range passes: `memcpy` takes the
-- number as unsigned and makes an access outside.
pub write2_output_negative :
    {m : PersistentMemory} (max_elements k : ℕ) (input : List ℕ)
    → IsValid m
    → (k + 2) * m.data_element_size < 2 ^ 31
    → m.data_num_elements + k + 2 < 2 ^ 31
    → write2_output (pos max_elements) input (pos 1) (negsuc k) m ≡ none
unfolding write2_output
write2_output_negative {m} max_elements k input v h hn = rw (
  passes max_elements k m hn,
  minus_one 0,
  copy_outside (copied_elements m (unsigned (negsuc k))) input 0 m.data_ptr 0
      (omega (arith, negative_elements m k v h, v.size)) (omega (arith, negative_elements m k v h)),
)
