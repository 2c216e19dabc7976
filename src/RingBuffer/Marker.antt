-- ===== src/RingBuffer/Marker.antt =====
-- Reads relative to the marker, which `SetMarkerPositionToCurrentWrite` puts behind the last write.
use native.Mathlib.Nat.{mod-eq_of_lt, mod-eq-sub-mod, mod-lt, add-zero, add-mod_right}
use ortd.Prelude.{
  ℕ, zero, suc, ◌+◌, ◌-◌, ◌%◌, ◌^◌, ◌≤◌, ◌<◌, ◌≡◌, refl, sym, ap, ◌∙◌, List, [], ◌∷◌, length,
  get_elem?, get_or, none, some, arith, dec_lt, word,
}
use ortd.RingBuffer.{
  RingBuffer, insert_elements, set_marker, get_element_rel_to_marker, write_all, make_room,
  count_written,
}
use ortd.RingBuffer.Window.{window, forward-forward, get_elem?-eq-get_or}
use ortd.RingBuffer.Invariant.{IsValid, IsWritable, write_all-Wrote, set_marker-IsValid}
use ortd.RingBuffer.Refine.{insert_refines, insert-accepts, write_all-window}

get_elem?-past : (xs : List ℕ) (i : ℕ) → length xs ≤ i → get_elem? xs i ≡ none
get_elem?-past [] i h = refl
get_elem?-past (x ∷ xs) zero h = elim h [ ]
get_elem?-past (x ∷ xs) (suc i) h = get_elem?-past xs i (omega arith)

get_elem?-window :
    (memory : List ℕ) (room h n i : ℕ)
    → h < room
    → i < n
    → get_elem? (window memory room h n) i ≡ some (get_or memory ((h + i) % room) 0)
get_elem?-window memory room h zero i hh hi = elim hi [ ]
get_elem?-window memory room h (suc n) zero hh hi = rw (add-zero, mod-eq_of_lt hh)
get_elem?-window memory room h (suc n) (suc i) hh hi =
    get_elem?-window memory room ((h + 1) % room) n i (mod-lt (h + 1) (omega arith)) (omega arith)
    ∙ ap (λ j. some (get_or memory j 0)) (forward-forward room h 1 i (suc i) (omega arith))

-- Forward from the marker there is no wrap: the element is read while the end of the memory is
-- not reached, and from there on the access is outside.
pub forward_lem :
    {r : RingBuffer} (k : ℕ)
    → IsValid r
    → k < 2 ^ 31 - r.num_elements
    → (r.marker_position + k < r.num_elements
        → get_element_rel_to_marker r k ≡ some (get_or r.memory (r.marker_position + k) 0))
      × (r.num_elements ≤ r.marker_position + k → get_element_rel_to_marker r k ≡ none)
unfolding get_element_rel_to_marker
forward_lem {r} k v h = (
  (λ inside.
      ground
        (arith, get_elem?-eq-get_or r.memory (r.marker_position + k) (omega (arith, v.storage)))),
  (λ outside.
      ground (arith, get_elem?-past r.memory (r.marker_position + k) (omega (arith, v.storage)))),
)

-- Backward from the marker the position goes round the start of the memory.
pub backward :
    {r : RingBuffer} (k : ℕ)
    → IsValid r
    → 0 < k
    → k ≤ r.num_elements
    → get_element_rel_to_marker r (word - k)
      ≡ some (get_or r.memory ((r.marker_position + (r.num_elements - k)) % r.num_elements) 0)
unfolding get_element_rel_to_marker
backward {r} k v h b = elim (dec_lt r.marker_position k) [
  | yes before ↦ ground (
    arith,
    mod-eq_of_lt {n = r.marker_position + (r.num_elements - k)} {m = r.num_elements} (omega arith),
    get_elem?-eq-get_or r.memory (r.marker_position + (r.num_elements - k))
        (omega (arith, v.storage)),
  )
  | no behind ↦ ground (
    arith,
    mod-eq-sub-mod {n = r.marker_position + (r.num_elements - k)} {m = r.num_elements}
        (omega arith),
    mod-eq_of_lt {n = r.marker_position - k} {m = r.num_elements} (omega (arith, v.marker_in)),
    get_elem?-eq-get_or r.memory (r.marker_position - k) (omega (arith, v.storage, v.marker_in)),
  )
]

-- `make_room` moves the reader at most; the write loop starts where it would have.
record SameWriter (r s : RingBuffer) : Type 0 where
  writable : IsWritable s
  num_elements : s.num_elements ≡ r.num_elements
  write_counter : s.write_counter ≡ r.write_counter
  marker_position : s.marker_position ≡ r.marker_position

make_room-SameWriter : (r : RingBuffer) (n : ℕ) → IsValid r → SameWriter r (make_room r n)
unfolding make_room
make_room-SameWriter r n v = ground arith

-- The elements just written end at the write counter.
written-behind :
    (r : RingBuffer) (xs : List ℕ) (k : ℕ)
    → IsWritable r
    → 0 < k
    → k ≤ length xs
    → length xs ≤ r.num_elements
    → let s = write_all r xs in
      some (get_or s.memory ((s.write_counter + (r.num_elements - k)) % r.num_elements) 0)
      ≡ get_elem? xs (length xs - k)
written-behind r xs k w hk hx h =
    let wrote = write_all-Wrote xs r w in
    let n = length xs in
    let s = write_all r xs in
    let start : r.write_counter ≡ (r.write_counter + 0) % r.num_elements =
      rw add-zero (sym (mod-eq_of_lt w.write_in)) in
    let at : (s.write_counter + (r.num_elements - k)) % r.num_elements
        ≡ (r.write_counter + (n - k)) % r.num_elements =
      ap (λ c. (c + (r.num_elements - k)) % r.num_elements) wrote.write_counter
      ∙ forward-forward r.num_elements r.write_counter n (r.num_elements - k)
          (n - k + r.num_elements) (omega arith)
      ∙ ap (λ c. c % r.num_elements) (omega arith)
      ∙ add-mod_right (r.write_counter + (n - k)) r.num_elements in
    let e : 0 + n ≡ n = omega arith in
    let written : window s.memory r.num_elements r.write_counter n ≡ xs =
      ap (λ m. window s.memory r.num_elements r.write_counter m) (sym e)
      ∙ write_all-window xs r r.write_counter 0 w w.write_in start (omega arith) in
    ap (λ j. some (get_or s.memory j 0)) at
    ∙ sym (
        get_elem?-window s.memory r.num_elements r.write_counter n (n - k) w.write_in (omega arith))
    ∙ ap (λ l. get_elem? l (n - k)) written

-- With the marker set behind a write of `xs`, a read `k` elements back from it gives the `k`-th
-- element of `xs` from its end, wherever in the memory the write went round.
pub look_back :
    {r : RingBuffer} (xs : List ℕ) (k : ℕ)
    → IsValid r
    → length xs ≤ r.num_elements
    → 0 < k
    → k ≤ length xs
    → get_element_rel_to_marker (set_marker (insert_elements r xs).1) (word - k)
      ≡ get_elem? xs (length xs - k)
unfolding set_marker count_written
look_back {r} xs k v h hk hx =
    let room = make_room-SameWriter r (length xs) v in
    let r' = make_room r (length xs) in
    let wrote = write_all-Wrote xs r' room.writable in
    let n : s.num_elements ≡ r'.num_elements = marked.0 ∙ wrote.num_elements in
    backward {r = s} k (set_marker-IsValid (insert_refines xs v h).valid) hk
      (omega (arith, n, room.num_elements))
    ∙ rw (n, marked.1, marked.2)
        (written-behind r' xs k room.writable hk hx (omega (arith, room.num_elements)))
  where
    s : RingBuffer
    s = set_marker (insert_elements r xs).1

    marked :
        (s.num_elements ≡ (write_all (make_room r (length xs)) xs).num_elements)
        × (s.memory ≡ (write_all (make_room r (length xs)) xs).memory)
        × (s.marker_position ≡ (write_all (make_room r (length xs)) xs).write_counter)
    marked = rw (insert-accepts r xs h) (refl, refl, refl)
