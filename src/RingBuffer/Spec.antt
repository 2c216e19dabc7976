-- ===== src/RingBuffer/Spec.antt =====
-- What the ring buffer promises: a queue of bounded length that makes room by dropping the oldest.
use ortd.Prelude.{ℕ, ◌+◌, List, [], ◌∷◌, ◌++◌, Option, none, some, length, drop, leb, if◌then◌else◌}

-- `xs` joins the end of the queue. If they do not all fit into `n` places, as many elements as
-- come in are dropped at the front.
unfoldable pub insert : ℕ → List ℕ → List ℕ → List ℕ
insert n q xs = if leb (length q + length xs) n then q ++ xs else drop (length xs) (q ++ xs)

unfoldable pub pop : List ℕ → Option ℕ × List ℕ
pop [] = (none, [])
pop (x ∷ q) = (some x, q)
