-- ===== src/RingBuffer/Refine.antt =====
-- A valid ring buffer behaves as the queue of the elements that it holds.
use mathlib.Core.List.{append-nil, append_assoc}
use native.Mathlib.Nat.{mod-eq_of_lt, mod-lt, add-zero}
use ortd.Prelude.{
  ℕ, zero, suc, ◌+◌, ◌-◌, ◌%◌, ◌≤◌, ◌<◌, ◌≡◌, refl, sym, ap, ◌∙◌, Bool, true, List, [], ◌∷◌, ◌++◌,
  length, lt→leb_false, le→leb, drop-append_le, drop-append_ge, drop, arith, dec_lt, sub32, add32,
}
use ortd.RingBuffer.{
  RingBuffer, next_counter, make_room, write_one, write_all, count_written, insert_elements,
  get_element_copy,
}
use ortd.RingBuffer.Spec
use ortd.RingBuffer.Window.{
  window, length-window, window-set, window-drop, forward-forward, get_elem?-eq-get_or,
}
use ortd.RingBuffer.Invariant.{
  IsValid, IsWritable, next_counter-mod, write_one-next, write_one-IsWritable, write_all-Wrote,
  make_room-fits, make_room-full, get_element_copy-IsValid,
}

-- The elements that are pending, the oldest first.
abbrev pub contents : RingBuffer → List ℕ
contents r = window r.memory r.num_elements r.read_counter r.elements_pending

-- The write loop adds what it writes to any window that ends where it starts, if there is room.
pub write_all-window :
    (xs : List ℕ) (r : RingBuffer) (h n : ℕ)
    → IsWritable r
    → h < r.num_elements
    → r.write_counter ≡ (h + n) % r.num_elements
    → n + length xs ≤ r.num_elements
    → window (write_all r xs).memory r.num_elements h (n + length xs)
      ≡ window r.memory r.num_elements h n ++ xs
unfolding write_all write_one
write_all-window [] r h n w hh e f = rw (add-zero, append-nil)
write_all-window (x ∷ xs) r h n w hh e f =
    let next : next_counter r.num_elements r.write_counter ≡ (h + suc n) % r.num_elements =
      write_one-next r x w
      ∙ ap (λ c. (c + 1) % r.num_elements) e
      ∙ forward-forward r.num_elements h n 1 (suc n) (omega arith) in
    let count : n + suc (length xs) ≡ suc n + length xs = omega arith in
    rw count (
      write_all-window xs (write_one r x) h (suc n) (write_one-IsWritable r x w) hh next
        (omega arith)
      ∙ ap (λ l. l ++ xs)
          (window-set r.memory r.num_elements x n h r.write_counter (omega (arith, w.storage)) hh
            (omega arith) e)
      ∙ append_assoc (window r.memory r.num_elements h n) (x ∷ []) xs)

-- What `insertElements` has done: the result, the invariant, and the queue `q` that is held.
pub record Inserted (out : Bool × RingBuffer) (q : List ℕ) : Type 0 where
  pub accepted : out.0 ≡ true
  pub valid : IsValid out.1
  pub queue : contents out.1 ≡ q

contents_from :
    (s : RingBuffer) {n h m : ℕ}
    → s.num_elements ≡ n
    → s.read_counter ≡ h
    → s.elements_pending ≡ m
    → contents s ≡ window s.memory n h m
contents_from s p q e = rw (p, q, e)

pub insert-accepts :
    (r : RingBuffer) (xs : List ℕ)
    → length xs ≤ r.num_elements
    → insert_elements r xs
      ≡ (true, count_written (write_all (make_room r (length xs)) xs) (length xs))
unfolding insert_elements
insert-accepts r xs h = ground arith

-- The second half of `insertElements`, from the state `r` that `make_room` leaves.
finish :
    (r : RingBuffer) (xs : List ℕ) (m : ℕ) {q : List ℕ}
    → IsWritable r
    → r.read_counter < r.num_elements
    → r.marker_position < r.num_elements
    → add32 r.elements_pending (length xs) ≡ m
    → m ≤ r.num_elements
    → (r.write_counter + length xs) % r.num_elements ≡ (r.read_counter + m) % r.num_elements
    → window (write_all r xs).memory r.num_elements r.read_counter m ≡ q
    → Inserted (true, count_written (write_all r xs) (length xs)) q
unfolding count_written
finish r xs m w hr hm hp hb hw e =
    let wrote = write_all-Wrote xs r w in
    let pending : add32 (write_all r xs).elements_pending (length xs) ≡ m =
      ap (λ k. add32 k (length xs)) wrote.elements_pending ∙ hp in
    let at : (write_all r xs).write_counter
        ≡ ((write_all r xs).read_counter + m) % (write_all r xs).num_elements =
      rw (wrote.read_counter, wrote.num_elements) (wrote.write_counter ∙ hw) in
    record {
      accepted = refl;
      valid = record {
        storage = wrote.storage ∙ sym wrote.num_elements;
        nonempty = omega (arith, wrote.num_elements);
        small = omega (arith, wrote.num_elements, w.small);
        read_in = omega (arith, wrote.num_elements, wrote.read_counter);
        write_in = omega (
          arith,
          wrote.num_elements,
          wrote.write_counter,
          mod-lt (r.write_counter + length xs) {m = r.num_elements} (omega arith),
        );
        write_at = rw pending at;
        pending_in = omega (arith, wrote.num_elements, pending);
        marker_in = omega (arith, wrote.num_elements, wrote.marker_position);
      };
      queue =
          contents_from (count_written (write_all r xs) (length xs)) wrote.num_elements
            wrote.read_counter pending
          ∙ e;
    }

pub IsValid-IsWritable : {r : RingBuffer} → IsValid r → IsWritable r
IsValid-IsWritable v = record { storage = v.storage; small = v.small; write_in = v.write_in }

insert-fits :
    (r : RingBuffer) (xs : List ℕ)
    → IsValid r
    → r.elements_pending + length xs ≤ r.num_elements
    → Inserted (insert_elements r xs) (contents r ++ xs)
insert-fits r xs v h =
    rw (insert-accepts r xs (omega arith), make_room-fits r (length xs) v h)
      (finish r xs (r.elements_pending + length xs) (IsValid-IsWritable v) v.read_in v.marker_in
        (omega (arith, v.small)) h
        (ap (λ c. (c + length xs) % r.num_elements) v.write_at
          ∙ forward-forward r.num_elements r.read_counter r.elements_pending (length xs) _ refl)
        (write_all-window xs r r.read_counter r.elements_pending (IsValid-IsWritable v) v.read_in
          v.write_at h))

-- The state that `make_room` leaves if the elements do not fit.
abbrev advanced : RingBuffer → ℕ → RingBuffer
advanced r n = record r {
  read_counter = (r.read_counter + n) % r.num_elements;
  elements_pending = sub32 r.elements_pending n;
}

advanced-IsWritable : {r : RingBuffer} (n : ℕ) → IsValid r → IsWritable (advanced r n)
advanced-IsWritable n v = record { storage = v.storage; small = v.small; write_in = v.write_in }

-- What stands behind the reader that has gone `length xs` elements forward.
full-window :
    (r : RingBuffer) (xs : List ℕ)
    → IsValid r
    → length xs ≤ r.num_elements
    → window
        (write_all (advanced r (length xs)) xs).memory
        r.num_elements
        ((r.read_counter + length xs) % r.num_elements)
        r.elements_pending
      ≡ drop (length xs) (contents r ++ xs)
full-window r xs v h = elim (dec_lt r.elements_pending (length xs)) [
  | no old ↦
      let n = length xs in
      let k : ℕ = r.elements_pending - n in
      let at : r.write_counter ≡ ((r.read_counter + n) % r.num_elements + k) % r.num_elements =
        v.write_at
        ∙ sym
            (forward-forward r.num_elements r.read_counter n k r.elements_pending (omega arith)) in
      let written =
        write_all-window xs (advanced r n) ((r.read_counter + n) % r.num_elements) k
          (advanced-IsWritable n v) (mod-lt (r.read_counter + n) v.nonempty) at
          (omega (arith, v.pending_in)) in
      let e : k + n ≡ r.elements_pending = omega arith in
      let e' : n + k ≡ r.elements_pending = omega arith in
      rw e at written
      ∙ ap (λ l. l ++ xs) (window-drop r.memory r.num_elements n r.read_counter k v.read_in)
      ∙ ap (λ m. drop n (window r.memory r.num_elements r.read_counter m) ++ xs) e'
      ∙ sym (
          drop-append_le n (contents r) xs (
            omega (arith, length-window r.memory r.num_elements r.read_counter r.elements_pending)))
  | yes new ↦
      let n = length xs in
      let k : ℕ = n - r.elements_pending in
      let m' = (write_all (advanced r n) xs).memory in
      let start : r.write_counter ≡ (r.write_counter + 0) % r.num_elements =
        rw (add-zero) (sym (mod-eq_of_lt v.write_in)) in
      let written =
        write_all-window xs (advanced r n) r.write_counter 0 (advanced-IsWritable n v) v.write_in
          start (omega arith) in
      let e : 0 + n ≡ k + r.elements_pending = omega arith in
      let at : (r.read_counter + n) % r.num_elements ≡ (r.write_counter + k) % r.num_elements =
        sym (
          ap (λ c. (c + k) % r.num_elements) v.write_at
          ∙ forward-forward r.num_elements r.read_counter r.elements_pending k n (omega arith)) in
      ap (λ c. window m' r.num_elements c r.elements_pending) at
      ∙ (window-drop m' r.num_elements k r.write_counter r.elements_pending v.write_in)
      ∙ ap (drop k) (rw e at written)
      ∙ ap (λ j. drop j xs)
          (omega (arith, length-window r.memory r.num_elements r.read_counter r.elements_pending))
      ∙ sym (
          drop-append_ge n (contents r) xs (
            omega (arith, length-window r.memory r.num_elements r.read_counter r.elements_pending)))
]

insert-full :
    (r : RingBuffer) (xs : List ℕ)
    → IsValid r
    → length xs ≤ r.num_elements
    → r.num_elements < r.elements_pending + length xs
    → Inserted (insert_elements r xs) (drop (length xs) (contents r ++ xs))
insert-full r xs v h k =
    rw (insert-accepts r xs h, make_room-full r (length xs) v h k)
      (finish (advanced r (length xs)) xs r.elements_pending (advanced-IsWritable (length xs) v)
        (mod-lt (r.read_counter + length xs) v.nonempty) v.marker_in
        (omega (arith, v.small, v.pending_in)) v.pending_in
        (ap (λ c. (c + length xs) % r.num_elements) v.write_at
          ∙ forward-forward r.num_elements r.read_counter r.elements_pending (length xs) _ refl
          ∙ sym (
              forward-forward r.num_elements r.read_counter (length xs) r.elements_pending _
                (omega arith)))
        (full-window r xs v h))

-- A write of at most `num_elements` elements to a valid buffer is accepted, keeps the buffer
-- valid, and leaves the queue of `Spec.insert`: the elements joined to the end, and if there is
-- no room for all of them, as many dropped at the front.
pub insert_refines :
    {r : RingBuffer} (xs : List ℕ)
    → IsValid r
    → length xs ≤ r.num_elements
    → Inserted (insert_elements r xs) (Spec.insert r.num_elements (contents r) xs)
unfolding Spec.insert
insert_refines {r} xs v h =
    let pending : length (contents r) ≡ r.elements_pending =
      length-window r.memory r.num_elements r.read_counter r.elements_pending in
    elim (dec_lt r.num_elements (r.elements_pending + length xs)) [
      | yes full ↦ rw (pending, lt→leb_false full) (insert-full r xs v h full)
      | no fits ↦
          rw (pending, le→leb (r.elements_pending + length xs) r.num_elements (omega arith))
            (insert-fits r xs v (omega arith))
    ]

pub get_element_copy_refines :
    {r : RingBuffer}
    → IsValid r
    → let (got, r') = get_element_copy r in
      IsValid r' × ((got, contents r') ≡ Spec.pop (contents r))
unfolding get_element_copy Spec.pop
get_element_copy_refines {r} v = (get_element_copy-IsValid v, pops r.elements_pending refl)
  where
    pops :
        (n : ℕ)
        → r.elements_pending ≡ n
        → let (got, r') = get_element_copy r in (got, contents r') ≡ Spec.pop (contents r)
    pops zero e = ground arith
    pops (suc n) e = ground (
      arith,
      next_counter-mod r.num_elements r.read_counter v.read_in v.small,
      get_elem?-eq-get_or r.memory r.read_counter (omega (arith, v.storage, v.read_in)),
    )
