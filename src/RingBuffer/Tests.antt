-- ===== src/RingBuffer/Tests.antt =====
-- Runs of the ring buffer, and its theorems at inputs that meet their hypotheses.
use ortd.Prelude.{ℕ, ◌-◌, ◌≡◌, refl, List, [], ◌∷◌, false, some, arith, word}
use ortd.RingBuffer.{
  RingBuffer, insert_elements, set_marker, get_element_copy, get_element_rel_to_marker, make_room,
  write_one, write_all, count_written, next_counter, wrap_read, io_output, read_loop,
}
use ortd.RingBuffer.Spec
use ortd.RingBuffer.Invariant.{IsValid}
use ortd.RingBuffer.Refine.{contents, Inserted, insert_refines}
use ortd.RingBuffer.Read.{Taken, io_output_lem}
use ortd.RingBuffer.Marker.{look_back}

-- Two elements pending, the second one in the first place.
abbrev wrapped : RingBuffer
wrapped = record {
  num_elements = 3;
  memory = 9 ∷ 7 ∷ 8 ∷ [];
  write_counter = 1;
  read_counter = 2;
  marker_position = 1;
  elements_pending = 2;
}

abbrev two : List ℕ
two = 4 ∷ 5 ∷ []

wrapped-IsValid : IsValid wrapped
wrapped-IsValid = omega arith

runs_full : contents (insert_elements wrapped two).1 ≡ 4 ∷ 5 ∷ []
unfolding insert_elements make_room write_one write_all count_written next_counter wrap_read
runs_full = refl

refuses_long : insert_elements wrapped (1 ∷ 2 ∷ 3 ∷ 4 ∷ []) ≡ (false, wrapped)
unfolding insert_elements
refuses_long = refl

reads_all : (io_output 5 wrapped).0 ≡ 8 ∷ 9 ∷ []
unfolding io_output read_loop get_element_copy next_counter
reads_all = refl

insert_refines_example : Inserted (insert_elements wrapped two) (Spec.insert 3 (8 ∷ 9 ∷ []) two)
insert_refines_example = insert_refines two wrapped-IsValid (omega arith)

io_output_example : Taken wrapped 1 (io_output 0 wrapped)
io_output_example = io_output_lem 0 wrapped-IsValid

look_back_example :
    get_element_rel_to_marker (set_marker (insert_elements wrapped two).1) (word - 2) ≡ some 4
look_back_example = look_back two 2 wrapped-IsValid (omega arith) (omega arith) (omega arith)
