-- ===== src/RingBuffer/Invariant.antt =====
-- The counters of the ring buffer stay inside its memory, whatever is written and read.
use native.Mathlib.Nat.{mod-eq_of_lt, mod-eq-sub-mod, mod_self, mod-lt}
use ortd.RingBuffer.Window.{forward-forward}
use ortd.Prelude.{
  ℕ, suc, ◌+◌, ◌-◌, ◌%◌, ◌^◌, ◌≤◌, ◌<◌, ◌≡◌, ap, ◌∙◌, List, [], ◌∷◌, length, length-set,
  length-replicate, arith, dec_lt, sub32, add32,
}
use ortd.RingBuffer.{
  RingBuffer, init, set_marker, next_counter, make_room, write_one, write_all, get_element_copy,
  wrap_read,
}

pub next_counter-mod : (n c : ℕ) → c < n → n < 2 ^ 31 → next_counter n c ≡ (c + 1) % n
unfolding next_counter
next_counter-mod n c h s = elim (dec_lt (c + 1) n) [
  | yes p ↦ ground (arith, mod-eq_of_lt p)
  | no p ↦ let e : c + 1 ≡ n = omega arith in ground (arith, mod_self n)
]

-- One round back is the remainder: at most one round has been gone.
wrap_read-mod : (n c k : ℕ) → c < n → k ≤ n → n < 2 ^ 31 → wrap_read n (add32 c k) ≡ (c + k) % n
unfolding wrap_read
wrap_read-mod n c k h hk s = elim (dec_lt (c + k) n) [
  | yes p ↦ ground (arith, mod-eq_of_lt p)
  | no p ↦ ground (
    arith,
    mod-eq-sub-mod {n = c + k} {m = n} (omega arith),
    mod-eq_of_lt {n = c + k - n} {m = n} (omega arith),
  )
]

-- The write counter stands `elements_pending` elements behind the read counter.
pub record IsValid (r : RingBuffer) : Type 0 where
  pub storage : length r.memory ≡ r.num_elements
  pub nonempty : 0 < r.num_elements
  pub small : r.num_elements < 2 ^ 31
  pub read_in : r.read_counter < r.num_elements
  pub write_in : r.write_counter < r.num_elements
  pub write_at : r.write_counter ≡ (r.read_counter + r.elements_pending) % r.num_elements
  pub pending_in : r.elements_pending ≤ r.num_elements
  pub marker_in : r.marker_position < r.num_elements

pub init-IsValid : (len : ℕ) → 0 < len → len < 2 ^ 31 → IsValid (init len)
unfolding init
init-IsValid len h s = omega (arith, length-replicate len zero_element)
  where
    zero_element : ℕ
    zero_element = 0

pub set_marker-IsValid : {r : RingBuffer} → IsValid r → IsValid (set_marker r)
unfolding set_marker
set_marker-IsValid v = omega arith

-- What the write loop needs: counters in range. The reader may stand anywhere.
pub record IsWritable (r : RingBuffer) : Type 0 where
  pub storage : length r.memory ≡ r.num_elements
  pub small : r.num_elements < 2 ^ 31
  pub write_in : r.write_counter < r.num_elements

pub write_one-next :
    (r : RingBuffer) (x : ℕ)
    → IsWritable r
    → (write_one r x).write_counter ≡ (r.write_counter + 1) % r.num_elements
unfolding write_one
write_one-next r x w = next_counter-mod r.num_elements r.write_counter w.write_in w.small

pub write_one-IsWritable : (r : RingBuffer) (x : ℕ) → IsWritable r → IsWritable (write_one r x)
unfolding write_one
write_one-IsWritable r x w = record {
  storage = length-set r.memory r.write_counter x ∙ w.storage;
  small = w.small;
  write_in = omega (arith, next_counter-mod r.num_elements r.write_counter w.write_in w.small);
}

-- All that the write loop leaves as it was, and where it stops.
pub record Wrote (r s : RingBuffer) (n : ℕ) : Type 0 where
  pub num_elements : s.num_elements ≡ r.num_elements
  pub read_counter : s.read_counter ≡ r.read_counter
  pub marker_position : s.marker_position ≡ r.marker_position
  pub elements_pending : s.elements_pending ≡ r.elements_pending
  pub storage : length s.memory ≡ r.num_elements
  pub write_counter : s.write_counter ≡ (r.write_counter + n) % r.num_elements

pub write_all-Wrote :
    (xs : List ℕ) (r : RingBuffer) → IsWritable r → Wrote r (write_all r xs) (length xs)
unfolding write_all write_one
write_all-Wrote [] r w =
    omega (arith, mod-eq_of_lt {n = r.write_counter + 0} {m = r.num_elements} (omega arith))
write_all-Wrote (x ∷ xs) r w =
    let rest = write_all-Wrote xs (write_one r x) (write_one-IsWritable r x w) in
    record {
      num_elements = rest.num_elements;
      read_counter = rest.read_counter;
      marker_position = rest.marker_position;
      elements_pending = rest.elements_pending;
      storage = rest.storage;
      write_counter =
          rest.write_counter
          ∙ ap (λ c. (c + length xs) % r.num_elements) (write_one-next r x w)
          ∙ forward-forward r.num_elements r.write_counter 1 (length xs) (suc (length xs))
              (omega arith);
    }

-- The two ways of `make_room`: nothing to do, or the reader goes `n` elements forward.
pub make_room-fits :
    (r : RingBuffer) (n : ℕ)
    → IsValid r
    → r.elements_pending + n ≤ r.num_elements
    → make_room r n ≡ r
unfolding make_room
make_room-fits r n v h = ground arith

pub make_room-full :
    (r : RingBuffer) (n : ℕ)
    → IsValid r
    → n ≤ r.num_elements
    → r.num_elements < r.elements_pending + n
    → make_room r n ≡ record r {
      read_counter = (r.read_counter + n) % r.num_elements;
      elements_pending = sub32 r.elements_pending n;
    }
unfolding make_room
make_room-full r n v h k =
    ground (arith, wrap_read-mod r.num_elements r.read_counter n v.read_in h v.small)

pub get_element_copy-IsValid : {r : RingBuffer} → IsValid r → IsValid (get_element_copy r).1
unfolding get_element_copy
get_element_copy-IsValid {r} v = ground (
  arith,
  next_counter-mod r.num_elements r.read_counter v.read_in v.small,
  mod-lt (r.read_counter + 1) {m = r.num_elements} v.nonempty,
  forward-forward r.num_elements r.read_counter 1 (r.elements_pending - 1) r.elements_pending,
)
