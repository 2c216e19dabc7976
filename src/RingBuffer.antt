-- ===== src/RingBuffer.antt =====
-- modules/pipelines/RingBuffer.cpp: the shared ring buffer behind the pipeline blocks. A method of
-- `RingBuffer_shobj` returns the new object beside its result; the counters are 32-bit words and
-- keep their wrap-around. The bytes of an element are only copied, so an element is any number.
pub mod Spec
pub mod Window
pub mod Invariant
pub mod Refine
pub mod Read
pub mod Marker
mod Tests
use ortd.Prelude.{
  ℕ, zero, suc, ◌+◌, ◌-◌, Bool, true, false, not, List, [], ◌∷◌, Option, none, some, length,
  get_elem?, set, replicate, ltb, leb, if◌then◌else◌, add32, sub32, slt32,
}

-- `RingBuffer_shobj`: `memory` is `data`, cut into elements of `data_element_size` bytes.
pub record RingBuffer : Type 0 where
  pub num_elements : ℕ
  pub memory : List ℕ
  pub write_counter : ℕ
  pub read_counter : ℕ
  pub marker_position : ℕ
  pub elements_pending : ℕ

-- The constructor: zeroed memory, all counters at the start.
pub init : ℕ → RingBuffer
init len = record {
  num_elements = len;
  memory = replicate len 0;
  write_counter = 0;
  read_counter = 0;
  marker_position = 0;
  elements_pending = 0;
}

-- `SetMarkerPositionToCurrentWrite`
pub set_marker : RingBuffer → RingBuffer
set_marker r = record r { marker_position = r.write_counter }

-- A counter after `++`, taken back to the first position when it reaches the end.
pub next_counter : ℕ → ℕ → ℕ
next_counter n c = if leb n (add32 c 1) then 0 else add32 c 1

-- A counter that has reached the end is taken back by one round.
pub wrap_read : ℕ → ℕ → ℕ
wrap_read n c = if leb n c then sub32 c n else c

-- The first half of `insertElements`: too few free slots move the reader forward.
pub make_room : RingBuffer → ℕ → RingBuffer
unfolding wrap_read
make_room r n =
    if slt32 (sub32 r.num_elements r.elements_pending) n
    then record r {
      read_counter = wrap_read r.num_elements (add32 r.read_counter n);
      elements_pending = sub32 r.elements_pending n;
    }
    else r

-- The loop of `insertElements`: one element is copied, and the write counter wraps at the end.
pub write_one : RingBuffer → ℕ → RingBuffer
write_one r x = record r {
  memory = set r.memory r.write_counter x;
  write_counter = next_counter r.num_elements r.write_counter;
}

pub write_all : RingBuffer → List ℕ → RingBuffer
write_all r [] = r
write_all r (x ∷ xs) = write_all (write_one r x) xs

pub count_written : RingBuffer → ℕ → RingBuffer
count_written r n = record r { elements_pending = add32 r.elements_pending n }

-- `insertElements`: the elements of `src` are the `numElementsToWrite` ones behind its pointer.
pub insert_elements : RingBuffer → List ℕ → Bool × RingBuffer
insert_elements r src =
    if ltb r.num_elements (length src)
    then (false, r)
    else (true, count_written (write_all (make_room r (length src)) src) (length src))

-- `GetElementCopy`: the option is what is copied through `dst`; `none` is the result `false`.
pub get_element_copy : RingBuffer → Option ℕ × RingBuffer
get_element_copy r = if ltb r.elements_pending 1 then (none, r) else (
  get_elem? r.memory r.read_counter,
  record r {
    read_counter = next_counter r.num_elements r.read_counter;
    elements_pending = sub32 r.elements_pending 1;
  },
)

-- `GetElementRelToMarkerCopy`: `none` is an access outside the memory.
pub get_element_rel_to_marker : RingBuffer → ℕ → Option ℕ
get_element_rel_to_marker r rel =
    let pos = add32 r.marker_position rel in
    get_elem? r.memory (if slt32 pos 0 then add32 r.num_elements pos else pos)

-- The loop of the read block, `RingBuffer_read_block_class::io_output`, after `i` elements: the
-- first argument is how many may still be read, and the test stands behind the body.
pub read_loop : ℕ → RingBuffer → List ℕ × RingBuffer
read_loop zero r = ([], r)
read_loop (suc k) r =
    let (got, r') = get_element_copy r in
    let (rest, r'') = read_loop k r' in elim got [ none ↦ ([], r') | some x ↦ (x ∷ rest, r'') ]

-- A `do … while` with `ElementsToRead` at 0 still runs its body once.
pub io_output : ℕ → RingBuffer → List ℕ × RingBuffer
unfolding read_loop
io_output elements_to_read r = read_loop (if ltb elements_to_read 1 then 1 else elements_to_read) r
