-- ===== src/Nested/Memory/Tests.antt =====
-- Runs of the memory blocks, and their theorems at inputs that meet the hypotheses.
use ortd.Prelude.{
  ℕ, ◌<◌, ◌≡◌, refl, ◌⊎◌, true, none, some, List, [], ◌∷◌, get_elem?, arith, pos, negsuc, ◌-ℤ◌,
}
use ortd.Prelude.Copy.{copy}
use ortd.Libdyn.Create.{datatype_len}
use ortd.Nested.Memory.{
  PersistentMemory, new_memory, attach, too_big, wrong_datatype, write_output, read_output,
  write2_output, out_of_range2, unsigned, signed,
}
use ortd.Nested.Memory.Access.{IsValid, IsHeld, IsWritten, read_output-write_output}
use ortd.Nested.Memory.Variable.{Fits, write2_output_lem, write2_output_negative}

abbrev four_ints : PersistentMemory
four_ints = record {
  datatype = 2;
  data_element_size = 4;
  data_num_elements = 4;
  use_mutex = true;
  data_ptr = 1 ∷ 2 ∷ 3 ∷ 4 ∷ [];
}

four_ints-IsValid : IsValid four_ints
four_ints-IsValid = omega arith

creates_ints :
    new_memory 2 2 (some (9 ∷ [])) true
    ≡ some (record four_ints { data_num_elements = 2; data_ptr = 0 ∷ 0 ∷ [] })
unfolding new_memory datatype_len
creates_ints = refl

creates_doubles :
    new_memory 257 2 (some (9 ∷ 8 ∷ [])) true
    ≡ some (record {
      datatype = 257;
      data_element_size = 8;
      data_num_elements = 2;
      use_mutex = true;
      data_ptr = 9 ∷ 8 ∷ [];
    })
unfolding new_memory datatype_len copy
creates_doubles = refl

refuses_big : attach 2 5 (some four_ints) ≡ too_big
unfolding attach
refuses_big = refl

refuses_doubles : attach 257 1 (some four_ints) ≡ wrong_datatype
unfolding attach
refuses_doubles = refl

-- An index behind the end is held at the last place.
writes_last :
    write_output 2 (7 ∷ 8 ∷ []) (pos 90) four_ints
    ≡ some (record four_ints { data_ptr = 1 ∷ 2 ∷ 7 ∷ 8 ∷ [] })
unfolding write_output copy signed ◌-ℤ◌
writes_last = refl

refuses_index : write2_output (pos 4) (7 ∷ 8 ∷ []) (pos 4) (pos 2) four_ints ≡ some four_ints
unfolding write2_output out_of_range2 signed unsigned
refuses_index = refl

read_output-write_output_example :
    (c : ℕ) × (m' : PersistentMemory) × (out' : List ℕ) × IsHeld four_ints 2 (negsuc 6) c
    × (write_output 2 (7 ∷ 8 ∷ []) (negsuc 6) four_ints ≡ some m')
    × IsValid m'
    × IsWritten 2 (7 ∷ 8 ∷ []) c four_ints m'
    × (read_output 2 (negsuc 6) m' (0 ∷ 0 ∷ []) ≡ some out')
    × ((i : ℕ) → i < 2 → get_elem? out' i ≡ get_elem? (7 ∷ 8 ∷ []) i)
unfolding attach
read_output-write_output_example =
    read_output-write_output four_ints-IsValid 2 2 (7 ∷ 8 ∷ []) (0 ∷ 0 ∷ []) (negsuc 6)
      {use_mutex = true} refl refl refl

write2_output_example :
    (((c : ℕ) → ¬ Fits 4 (pos 2) 2 four_ints c)
      × (write2_output (pos 4) (7 ∷ 8 ∷ 5 ∷ 5 ∷ []) (pos 2) (pos 2) four_ints ≡ some four_ints))
    ⊎ ((c : ℕ) × (m' : PersistentMemory) × Fits 4 (pos 2) 2 four_ints c
        × (write2_output (pos 4) (7 ∷ 8 ∷ 5 ∷ 5 ∷ []) (pos 2) (pos 2) four_ints ≡ some m')
        × IsValid m'
        × IsWritten 2 (7 ∷ 8 ∷ 5 ∷ 5 ∷ []) c four_ints m')
write2_output_example =
    write2_output_lem 4 (pos 2) 2 (7 ∷ 8 ∷ 5 ∷ 5 ∷ []) four_ints-IsValid (omega arith) refl

write2_output_negative_example :
    write2_output (pos 4) (7 ∷ 8 ∷ []) (pos 1) (negsuc 0) four_ints ≡ none
write2_output_negative_example =
    write2_output_negative 4 0 (7 ∷ 8 ∷ []) four_ints-IsValid (omega arith) (omega arith)
