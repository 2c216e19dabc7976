-- ===== src/Nested/Memory.antt =====
-- modules/nested/persistent_memory.cpp: `persistent_memory_shobj` with the blocks that write and read
-- it. The memory is a list of elements of `data_element_size` bytes: every access is at a multiple of
-- this size. `int` is ℤ, `uint` a 32-bit word; an access outside of the memory is `none`. The mutex
-- is taken and released within each access.
pub mod Access
pub mod Variable
mod Tests
use ortd.Prelude.{
  hold, place, ℕ, ◌+◌, ◌-◌, ◌*◌, ◌/◌, ◌%◌, ◌^◌, ◌>>=◌, Bool, true, false, Option, none, some, List,
  ◌||◌, ltb, if◌then◌else◌, ◌==◌, word, add32, sub32, ℤ, pos, negsuc, ◌-ℤ◌, ltb_ℤ, replicate,
}
use ortd.Prelude.Copy.{copy}
use ortd.Libdyn.Create.{datatype_len}

pub record PersistentMemory : Type 0 where
  pub datatype : ℕ
  pub data_element_size : ℕ
  pub data_num_elements : ℕ
  pub use_mutex : Bool
  pub data_ptr : List ℕ

-- A word as an `int`, and an `int` as a word.
pub signed : ℕ → ℤ
signed w = if ltb w (2 ^ 31) then pos w else negsuc (word - 1 - w)

pub unsigned : ℤ → ℕ
unsigned (pos n) = n % word
unsigned (negsuc n) = (word - 1 - n % word) % word

-- The constructor: doubles are initialised from `initial_data`, all else is cleared.
pub new_memory : ℕ → ℕ → Option (List ℕ) → Bool → Option PersistentMemory
new_memory datatype len initial_data use_mutex =
    let made = λ (cells : List ℕ). some (record {
      datatype = datatype;
      data_element_size = datatype_len datatype;
      data_num_elements = len;
      use_mutex = use_mutex;
      data_ptr = cells;
    }) in
    let cleared = replicate len 0 in
    elim initial_data [
      | none ↦ made cleared
      | some values ↦ if datatype == 257 then copy len values 0 cleared 0 >>= made else made cleared
    ]

-- How `init` of a writing or a reading block ends.
pub data Init : Type 0 where
  ready : Bool → Init
  not_found wrong_datatype too_big : Init

-- `init` of the blocks that read or write a fixed number of elements; what the directory has under
-- the name is given.
pub attach : ℕ → ℕ → Option PersistentMemory → Init
attach datatype elements none = not_found
attach datatype elements (some m) =
    if m.datatype == datatype
    then (if ltb m.data_num_elements elements then too_big else ready m.use_mutex)
    else wrong_datatype

-- `init` of the block that writes a variable number of elements.
pub attach2 : ℕ → Option PersistentMemory → Init
attach2 datatype none = not_found
attach2 datatype (some m) = if m.datatype == datatype then ready m.use_mutex else wrong_datatype

-- The index from 1 on is held in the range of the memory, and counted from 0 then.
pub clamp : PersistentMemory → ℕ → ℤ → ℤ
unfolding signed
clamp m elements index =
    hold (pos 1) (signed (add32 (sub32 m.data_num_elements elements) 1)) index -ℤ pos 1

-- The number of elements that `memcpy` gets as a number of bytes in a word.
pub copied_elements : PersistentMemory → ℕ → ℕ
copied_elements m elements = (elements * m.data_element_size) % word / m.data_element_size

-- `persistent_memory_write_block_class::io_output`
pub write_output : ℕ → List ℕ → ℤ → PersistentMemory → Option PersistentMemory
unfolding clamp copied_elements
write_output elements input index m = place (clamp m elements index) >>= λ at.
    copy (copied_elements m elements) input 0 m.data_ptr at >>= λ cells.
    some (record m { data_ptr = cells })

-- `persistent_memory_read_block_class::io_output`
pub read_output : ℕ → ℤ → PersistentMemory → List ℕ → Option (List ℕ)
unfolding clamp copied_elements
read_output elements index m out =
    place (clamp m elements index) >>= λ at. copy (copied_elements m elements) m.data_ptr at out 0

-- `persistent_memory_write2_block_class::io_output`: the test of the range, and the write.
pub out_of_range2 : ℤ → ℤ → ℤ → PersistentMemory → Bool
unfolding signed unsigned
out_of_range2 max_elements index nwrite m =
    ltb_ℤ index (pos 1)
    || ltb_ℤ (signed (add32 (sub32 m.data_num_elements (unsigned nwrite)) 1)) index
    || ltb_ℤ max_elements nwrite

pub write2_output : ℤ → List ℕ → ℤ → ℤ → PersistentMemory → Option PersistentMemory
write2_output max_elements input index nwrite m =
    if out_of_range2 max_elements index nwrite m
    then some m
    else place (index -ℤ pos 1) >>= λ at.
        copy (copied_elements m (unsigned nwrite)) input 0 m.data_ptr at >>= λ cells.
        some (record m { data_ptr = cells })
