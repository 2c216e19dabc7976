-- ===== src/Blocks/Delay/Vector.antt =====
-- The delays by one step.
use ortd.Prelude.{ℕ, ◌<◌, ◌≡◌, ◌∙◌, some, List, length, get_elem?, arith}
use ortd.Prelude.Copy.{IsCopied-whole, copy_lem}
use ortd.Blocks.Delay.{vectordelay_update, vectordelay_outputs}

-- An update with a vector of `veclen` elements, and then an output: the vector is put out, without an
-- access outside of the state, the input or the output, which are as long.
pub vectordelay_outputs-update :
    {A : Type 0} (veclen : ℕ) (inp stat_buf out : List A)
    → length inp ≡ veclen
    → length stat_buf ≡ veclen
    → length out ≡ veclen
    → (stat_buf' out' : List A) × (vectordelay_update veclen inp stat_buf ≡ some stat_buf')
      × (vectordelay_outputs veclen stat_buf' out ≡ some out')
      × (length stat_buf' ≡ veclen)
      × ((i : ℕ) → i < veclen → get_elem? out' i ≡ get_elem? inp i)
unfolding vectordelay_update vectordelay_outputs
vectordelay_outputs-update veclen inp stat_buf out hi hs ho =
    let (stat_buf', e, c) = copy_lem veclen inp 0 stat_buf 0 (omega arith) (omega arith) in
    let (out', e', c') = copy_lem veclen stat_buf' 0 out 0 (omega (arith, c.size)) (omega arith) in
    (stat_buf', out', e, e', c.size ∙ hs, λ i h. IsCopied-whole i c' h ∙ IsCopied-whole i c h)
