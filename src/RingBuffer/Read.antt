-- ===== src/RingBuffer/Read.antt =====
-- The loop of the read block: it takes out what is there, up to the size of its output.
use ortd.Prelude.{ℕ, zero, suc, ◌≡◌, refl, List, [], ◌∷◌, take, drop, ltb, if◌then◌else◌, arith}
use ortd.RingBuffer.{RingBuffer, get_element_copy, read_loop, io_output}
use ortd.RingBuffer.Spec
use ortd.RingBuffer.Invariant.{IsValid}
use ortd.RingBuffer.Refine.{contents, get_element_copy_refines}

-- The first `n` elements are handed out, the others are still there.
pub record Taken (r : RingBuffer) (n : ℕ) (out : List ℕ × RingBuffer) : Type 0 where
  pub valid : IsValid out.1
  pub elements : out.0 ≡ take n (contents r)
  pub queue : contents out.1 ≡ drop n (contents r)

read_loop-step :
    (n : ℕ) (r : RingBuffer) (q : List ℕ)
    → contents r ≡ q
    → IsValid (get_element_copy r).1
      × (((get_element_copy r).0, contents (get_element_copy r).1) ≡ Spec.pop q)
    → Taken (get_element_copy r).1 n (read_loop n (get_element_copy r).1)
    → Taken r (suc n) (read_loop (suc n) r)
unfolding read_loop Spec.pop
read_loop-step n r [] e (v, p) t = ground arith
read_loop-step n r (x ∷ q) e (v, p) t = ground (arith, t.valid, t.elements, t.queue)

read_loop-Taken : (n : ℕ) (r : RingBuffer) → IsValid r → Taken r n (read_loop n r)
unfolding read_loop
read_loop-Taken zero r v = record { valid = v; elements = refl; queue = refl }
read_loop-Taken (suc n) r v =
    let copied = get_element_copy_refines v in
    read_loop-step n r (contents r) refl copied (read_loop-Taken n (get_element_copy r).1 copied.0)

-- A read of `n` elements from a valid buffer returns the `n` oldest ones, or all if there are
-- fewer, leaves the others in the queue and the buffer valid. A read of none takes one.
pub io_output_lem :
    (n : ℕ) {r : RingBuffer} → IsValid r → Taken r (if ltb n 1 then 1 else n) (io_output n r)
unfolding io_output
io_output_lem n {r} v = read_loop-Taken (if ltb n 1 then 1 else n) r v
