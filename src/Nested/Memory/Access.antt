-- ===== src/Nested/Memory/Access.antt =====
-- The accesses of the memory blocks stay inside the memory, whatever index they get, except for one.
use native.Mathlib.Nat.{mod-eq_of_lt}
use mathlib.Core.Path.{subst}
use ortd.Prelude.{
  ℕ, ◌+◌, ◌-◌, ◌*◌, ◌/◌, ◌^◌, ◌≤◌, ◌<◌, ◌≡◌, refl, sym, ◌∙◌, Bool, some, List, length, get_elem?,
  arith, word, ℤ, pos_part, pos, ◌≤ℤ◌, ◌-ℤ◌,
}
use ortd.Prelude.Copy.{IsCopied, copy_lem}
use ortd.Nested.Memory.{
  PersistentMemory, attach, ready, clamp, signed, copied_elements, write_output, read_output,
}

pub record IsValid (m : PersistentMemory) : Type 0 where
  pub size : length m.data_ptr ≡ m.data_num_elements
  pub element : 0 < m.data_element_size
  pub bytes : m.data_num_elements * m.data_element_size + 1 < 2 ^ 31

pub le-mul : (a b : ℕ) → 0 < b → a ≤ a * b
le-mul a b h = grind arith

mul_mono : (a b c : ℕ) → a ≤ b → a * c ≤ b * c
mul_mono a b c h = grind arith

mul-div_self : (a b : ℕ) → 0 < b → a * b / b ≡ a
mul-div_self a b h = grind arith

pub copied_elements-le :
    (m : PersistentMemory) (n : ℕ) → IsValid m → n ≤ m.data_num_elements → copied_elements m n ≡ n
unfolding copied_elements
copied_elements-le m n v h =
    rw
      (mod-eq_of_lt {n = n * m.data_element_size} {m = word}
        (omega (arith, mul_mono n m.data_num_elements m.data_element_size h, v.bytes)))
      (mul-div_self n m.data_element_size v.element)

-- A block that is attached accesses at most as many elements as there are.
attach-le :
    (datatype n : ℕ) (m : PersistentMemory) {use_mutex : Bool}
    → attach datatype n (some m) ≡ ready use_mutex
    → n ≤ m.data_num_elements
unfolding attach
attach-le datatype n m e = ground arith

-- Where an index is held: inside of the memory, and at the index where that is.
pub record IsHeld (m : PersistentMemory) (n : ℕ) (index : ℤ) (c : ℕ) : Type 0 where
  pub result : clamp m n index ≡ pos c
  pub inside : c + n ≤ m.data_num_elements
  pub exact : pos 1 ≤ℤ index → index ≤ℤ pos (m.data_num_elements + 1 - n) → index ≡ pos (c + 1)

clamp-IsHeld :
    (m : PersistentMemory) (n : ℕ) (index : ℤ)
    → m.data_num_elements + 1 < 2 ^ 31
    → n ≤ m.data_num_elements
    → (c : ℕ) × IsHeld m n index c
unfolding clamp signed ◌-ℤ◌
clamp-IsHeld m n index h k = (
  pos_part (clamp m n index),
  record { result = ground arith; inside = ground arith; exact = λ l u. ground arith },
)

-- The memory after a write of the elements of `input` from place `c` on.
pub record IsWritten (n : ℕ) (input : List ℕ) (c : ℕ) (m m' : PersistentMemory) : Type 0 where
  pub num : m'.data_num_elements ≡ m.data_num_elements
  pub element : m'.data_element_size ≡ m.data_element_size
  pub cells : IsCopied n input 0 m.data_ptr c m'.data_ptr

pub IsWritten-IsValid :
    {n c : ℕ} {input : List ℕ} {m m' : PersistentMemory}
    → IsWritten n input c m m'
    → IsValid m
    → IsValid m'
IsWritten-IsValid w v = record {
  size = w.cells.size ∙ v.size ∙ sym w.num;
  element = omega (arith, w.element, v.element);
  bytes = rw (w.num, w.element) v.bytes;
}

module _ {m : PersistentMemory} (v : IsValid m) where
  pub num-lt : m.data_num_elements + 1 < 2 ^ 31
  num-lt = omega (arith, le-mul m.data_num_elements m.data_element_size v.element, v.bytes)

  write-IsWritten :
      (n : ℕ) (input : List ℕ) (index : ℤ) (c : ℕ)
      → n ≤ m.data_num_elements
      → length input ≡ n
      → IsHeld m n index c
      → (m' : PersistentMemory) × (write_output n input index m ≡ some m')
        × IsWritten n input c m m'
  unfolding write_output
  write-IsWritten n input index c k e held =
      let (cells, r, w) =
        copy_lem n input 0 m.data_ptr c (omega arith) (omega (arith, v.size, held.inside)) in
      (
        record m { data_ptr = cells },
        rw (held.result, copied_elements-le m n v k, r),
        record { num = refl; element = refl; cells = w },
      )

  read-IsCopied :
      (n : ℕ) (out : List ℕ) (index : ℤ) (c : ℕ)
      → n ≤ m.data_num_elements
      → length out ≡ n
      → clamp m n index ≡ pos c
      → c + n ≤ m.data_num_elements
      → (out' : List ℕ) × (read_output n index m out ≡ some out')
        × IsCopied n m.data_ptr c out 0 out'
  unfolding read_output
  read-IsCopied n out index c k e held inside =
      let (out', r, w) =
        copy_lem n m.data_ptr c out 0 (omega (arith, v.size, inside)) (omega arith) in
      (out', rw (held, copied_elements-le m n v k, r), w)

clamp-cong :
    (m m' : PersistentMemory) (n : ℕ) (index : ℤ)
    → m'.data_num_elements ≡ m.data_num_elements
    → clamp m' n index ≡ clamp m n index
unfolding clamp
clamp-cong m m' n index e = rw e

-- What is read from place `c` on is what was written there.
read-written :
    {n c : ℕ} {input out out' : List ℕ} {m m' : PersistentMemory} (i : ℕ)
    → IsWritten n input c m m'
    → IsCopied n m'.data_ptr c out 0 out'
    → i < n
    → get_elem? out' i ≡ get_elem? input i
read-written {c = c} {input = input} {out' = out'} {m' = m'} i w r h =
    let e : 0 + i ≡ i = omega arith in
    subst (λ (k : ℕ). get_elem? out' k ≡ get_elem? m'.data_ptr (c + i)) e (r.copied i h)
    ∙ subst (λ (k : ℕ). get_elem? m'.data_ptr (c + i) ≡ get_elem? input k) e (w.cells.copied i h)

-- A block that writes `n` elements and has been attached to a valid memory writes them inside of
-- the memory, whatever the index is: from a place `c` on that is the index where that is possible.
-- The memory stays valid, and the other elements are kept. A block that reads `n` elements at the
-- same index reads then what was written.
pub read_output-write_output :
    {m : PersistentMemory}
    → IsValid m
    → (datatype n : ℕ) (input out : List ℕ) (index : ℤ) {use_mutex : Bool}
    → attach datatype n (some m) ≡ ready use_mutex
    → length input ≡ n
    → length out ≡ n
    → (c : ℕ) × (m' : PersistentMemory) × (out' : List ℕ) × IsHeld m n index c
      × (write_output n input index m ≡ some m')
      × IsValid m'
      × IsWritten n input c m m'
      × (read_output n index m' out ≡ some out')
      × ((i : ℕ) → i < n → get_elem? out' i ≡ get_elem? input i)
read_output-write_output {m} v datatype n input out index ready_ hi ho =
    let k = attach-le datatype n m ready_ in
    let (c, held) = clamp-IsHeld m n index (num-lt v) k in
    let (m', e, w) = write-IsWritten v n input index c k hi held in
    let v' = IsWritten-IsValid w v in
    let (out', e', r) =
      read-IsCopied v' n out index c (omega (arith, w.num, k)) ho
        (clamp-cong m m' n index w.num ∙ held.result) (omega (arith, w.num, held.inside)) in
    (c, m', out', held, e, v', w, e', λ i h. read-written i w r h)
