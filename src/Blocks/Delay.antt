-- ===== src/Blocks/Delay.antt =====
-- basic_ldblocks.c: `compu_func_delay` with its rotating buffer, and the delays by one step,
-- `ortd_compu_func_vectordelay`, its twin for int32, and `ortd_compu_func_OneStepDelInt32`.
mod Queue
mod Vector
mod Tests
use ortd.Prelude.{
  ℕ, zero, suc, ◌+◌, ◌-◌, ◌>>=◌, Bool, true, false, Option, none, some, List, [], ◌∷◌, leb, ltb_ℤ,
  ℤ, pos, pos_part, if◌then◌else◌, set, get_elem?, replicate,
}
use ortd.Libdyn.Create.{ConfigCall, block, input, output}
use ortd.Prelude.Copy.{copy, store}

-- The two buffers behind the work pointer of `compu_func_delay`.
pub record Delay (A : Type 0) : Type 0 where
  pub buf_position_read : ℕ
  pub rot_buf : List A

-- COMPF_FLAG_CONFIGURE of `compu_func_delay`.
abbrev pub delay_configure : List ConfigCall
delay_configure = block true 1 1 false ∷ input 0 1 257 ∷ output 0 1 257 false ∷ []

module _ {A : Type 0} (nought : A) where
  abbrev pub cleared : ℕ → Delay A
  cleared n = record { buf_position_read = 0; rot_buf = replicate n nought }

  -- COMPF_FLAG_INIT; `none` is the return value -1.
  pub delay_init : ℤ → Option (Delay A)
  delay_init delay_length =
      if ltb_ℤ delay_length (pos 1) then none else some (cleared (pos_part delay_length))

  -- COMPF_FLAG_RESETSTATES, on a block that is initialised: the state, and the output.
  pub delay_reset : ℕ → Delay A → Delay A × A
  delay_reset delay_length d = (cleared delay_length, nought)

module _ {A : Type 0} where
  -- COMPF_FLAG_CALCOUTPUTS; `none` is an access outside of the buffer.
  pub delay_outputs : Delay A → Option A
  delay_outputs d = get_elem? d.rot_buf d.buf_position_read

  -- COMPF_FLAG_UPDATESTATES
  pub delay_update : ℕ → A → Delay A → Option (Delay A)
  delay_update delay_length inp d = store d.rot_buf d.buf_position_read inp >>= λ buf.
      some (record {
        rot_buf = buf;
        buf_position_read =
            if leb (delay_length - 1) d.buf_position_read then 0 else d.buf_position_read + 1;
      })

  -- The steps of the simulation: each computes the output and then updates the state.
  pub delay_run : ℕ → List A → Delay A → Option (List A × Delay A)
  delay_run n [] d = some ([], d)
  delay_run n (x ∷ xs) d = do
    out ← delay_outputs d
    d' ← delay_update n x d
    (outs, d'') ← delay_run n xs d'
    some (out ∷ outs, d'')

-- `stat_buf` of `ortd_compu_func_vectordelay` and of `ortd_compu_func_ld_vectordelayInt32`: the two
-- functions differ in the datatype only.
abbrev pub vectordelay_configure : ℕ → ℕ → List ConfigCall
vectordelay_configure datatype veclen =
    block true 1 1 false ∷ input 0 veclen datatype ∷ output 0 veclen datatype false ∷ []

module _ {A : Type 0} (nought : A) where
  pub vectordelay_init : ℤ → Option (List A)
  vectordelay_init veclen =
      if ltb_ℤ veclen (pos 1) then none else some (replicate (pos_part veclen) nought)

  -- The reset clears the state, and of the output the first element alone.
  pub vectordelay_reset : ℕ → List A → Option (List A × List A)
  vectordelay_reset veclen out = store out 0 nought >>= λ out'. some (replicate veclen nought, out')

module _ {A : Type 0} where
  pub vectordelay_outputs : ℕ → List A → List A → Option (List A)
  vectordelay_outputs veclen stat_buf out = copy veclen stat_buf 0 out 0

  pub vectordelay_update : ℕ → List A → List A → Option (List A)
  vectordelay_update veclen inp stat_buf = copy veclen inp 0 stat_buf 0

-- `ortd_compu_func_OneStepDelInt32`. It has one input, and configures a second one.
abbrev pub onestepdel_configure : List ConfigCall
onestepdel_configure = block true 1 1 false ∷ input 0 1 2 ∷ input 1 1 2 ∷ output 0 1 2 true ∷ []

module _ {A : Type 0} where
  -- The state is one number: it is put out, and the input becomes the next one.
  pub onestepdel_outputs : A → A
  onestepdel_outputs state = state

  pub onestepdel_update : A → A → A
  onestepdel_update inp state = inp
