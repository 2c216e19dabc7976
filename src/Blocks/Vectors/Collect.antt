-- ===== src/Blocks/Vectors/Collect.antt =====
-- The blocks that collect values: a write either fits or leaves everything as it was.
use ortd.Prelude.{
  ℕ, ◌+◌, ◌-◌, ◌≤◌, ◌<◌, ◌≡◌, ◌⊎◌, inl, inr, Bool-cases, true, false, some, List, length, arith, ℤ,
  pos, pos_part, ◌-ℤ◌, ◌+ℤ◌, ltb_ℤ,
}
use ortd.Prelude.Copy.{IsCopied, copy_lem}
use ortd.Blocks.Vectors.{collect_values}

collect_start : (s : ℕ) → pos_part (pos (s + 1) -ℤ pos 1) ≡ s
unfolding ◌-ℤ◌
collect_start s = ground arith

bin_inside :
    (from to val : ℤ)
    → ltb_ℤ val from ≡ false
    → ltb_ℤ to val ≡ false
    → pos_part (val -ℤ from) < pos_part (to -ℤ from +ℤ pos 1)
unfolding ◌+ℤ◌ ◌-ℤ◌
bin_inside from to val e k = ground arith

collect_past :
    (m n s : ℕ) (w : ℤ) → w ≡ pos (s + 1) → ltb_ℤ (pos m) (w -ℤ pos 1 +ℤ pos n) ≡ true → m < s + n
unfolding ◌+ℤ◌ ◌-ℤ◌
collect_past m n s w e h = ground arith

collect_inside :
    (m n : ℕ) (w : ℤ)
    → ltb_ℤ w (pos 1) ≡ false
    → ltb_ℤ (pos m) (w -ℤ pos 1 +ℤ pos n) ≡ false
    → (s : ℕ) × (w ≡ pos (s + 1)) × (s + n ≤ m)
unfolding ◌+ℤ◌ ◌-ℤ◌
collect_inside m n w e k = (pos_part w - 1, ground arith, ground arith)

-- The elements of the input stand at the place `s` of the memory, counted from 0, where they fit
-- there, and otherwise the memory is kept; no write is outside of it.
pub collect_values_lem :
    {A : Type 0} (memorysize invecsize : ℕ) (inp : List A) (write_index : ℤ) (out : List A)
    → length inp ≡ invecsize
    → length out ≡ memorysize
    → ((s : ℕ) × (out' : List A) × (write_index ≡ pos (s + 1))
        × (s + invecsize ≤ memorysize)
        × (collect_values memorysize invecsize inp write_index out ≡ some out')
        × IsCopied invecsize inp 0 out s out')
      ⊎ (((s : ℕ) → write_index ≡ pos (s + 1) → memorysize < s + invecsize)
          × (collect_values memorysize invecsize inp write_index out ≡ some out))
unfolding collect_values
collect_values_lem memorysize invecsize inp write_index out hi ho =
    elim (Bool-cases (ltb_ℤ write_index (pos 1))) [
      | inl e ↦ inr ((λ s k. ground arith), rw e)
      | inr e ↦ elim (Bool-cases (ltb_ℤ (pos memorysize) (write_index -ℤ pos 1 +ℤ pos invecsize))) [
        | inl k ↦ inr ((λ s l. collect_past memorysize invecsize s write_index l k), rw (e, k))
        | inr k ↦
            let (s, es, hs) = collect_inside memorysize invecsize write_index e k in
            let (out', r, c) = copy_lem invecsize inp 0 out s (omega arith) (omega arith) in
            inl (s, out', es, hs, rw (e, k, es, collect_start s) (rw r), c)
      ]
    ]
