-- ===== src/Blocks/Counters.antt =====
-- basic_ldblocks.c: the blocks that count. `ortd_compu_func_modcounter`, `ortd_compu_func_counter`,
-- `ortd_compu_func_limitedcounter`, `compu_func_ld_integratorInt32` and `ortd_compu_func_ld_Timer`.
mod Modulo
mod Limits
mod Alarm
mod Tests
use ortd.Prelude.{
  ℕ, zero, suc, ◌+◌, ◌-◌, ◌%◌, Bool, true, false, not, List, [], ◌∷◌, ◌&&◌, ◌==◌, if◌then◌else◌,
  slt32, sub32, add32, ℤ, pos, ◌+ℤ◌, ltb_ℤ,
}
use ortd.Libdyn.Create.{ConfigCall, block, input, output}
use ortd.Blocks.{Floating}

-- `ortd_compu_func_modcounter`: the state is an `int`. The update looks at whether the input is above 0.
abbrev pub modcounter_configure : List ConfigCall
modcounter_configure = block true 1 1 false ∷ input 0 1 257 ∷ output 0 1 257 true ∷ []

module _ (initial_state modulus : ℤ) where
  pub modcounter_update : Bool → ℤ → ℤ
  modcounter_update counts state =
      if counts
      then (let next = state +ℤ pos 1 in if ltb_ℤ next modulus then next else pos 0)
      else state

  -- The initialisation and the reset set the state; the reset puts it out, too.
  pub modcounter_init : ℤ
  modcounter_init = initial_state

  pub modcounter_reset : ℤ × ℤ
  unfolding modcounter_init
  modcounter_reset = (modcounter_init, modcounter_init)

  -- The updates of a number of steps.
  pub modcounter_run : List Bool → ℤ → ℤ
  modcounter_run [] state = state
  modcounter_run (c ∷ cs) state = modcounter_run cs (modcounter_update c state)

-- `ortd_compu_func_counter` and `ortd_compu_func_limitedcounter`: three inputs and the state are doubles.
abbrev pub counter_configure : List ConfigCall
counter_configure =
    block true 1 3 false ∷ input 0 1 257 ∷ input 1 1 257 ∷ input 2 1 257 ∷ output 0 1 257 true ∷ []

module _ (d : Floating) where
  open d use {F, plus, less, above_half}

  pub counter_update : F → F → F → F → F
  counter_update incount inreset inresetto state =
      if above_half inreset then inresetto else plus state incount

  -- The constraints of the limited counter: `x > y` is `less y x`.
  pub constrain : F → F → F → F
  constrain lower_b upper_b state =
      if less upper_b state then upper_b else if less state lower_b then lower_b else state

  pub limitedcounter_update : F → F → F → F → F → F → F
  unfolding constrain
  limitedcounter_update lower_b upper_b incount inreset inresetto state =
      if above_half inreset then inresetto else constrain lower_b upper_b (plus state incount)

-- `compu_func_ld_integratorInt32`: what was put out and the input are 32-bit words; a sum beyond the
-- range of `int32_t` is taken to wrap.
pub integrator_outputs : ℕ → ℕ → ℕ
integrator_outputs inp out = add32 out inp

-- `ortd_compu_func_ld_Timer`: the two outputs are its state, and 32-bit words.
pub record Timer : Type 0 where
  pub timer_active : ℕ
  pub counter : ℕ

abbrev pub timer_configure : List ConfigCall
timer_configure = block true 2 1 false ∷ input 0 1 2 ∷ output 0 1 2 true ∷ output 1 1 2 true ∷ []

abbrev pub timer_init : Timer
timer_init = record { timer_active = 0; counter = 0 }

-- The active timer counts down, and stops at 0.
pub timer_down : Timer → Timer
timer_down t =
    if t.timer_active == 1
    then (let c = sub32 t.counter 1 in
        record { counter = c; timer_active = if c == 0 then 0 else t.timer_active })
    else t

-- A timer that is not active is started by the trigger.
pub timer_start : ℕ → ℕ → Timer → Timer
timer_start count trigger t =
    if slt32 0 trigger && (t.timer_active == 0)
    then record { counter = count; timer_active = 1 }
    else t

pub timer_outputs : ℕ → ℕ → Timer → Timer
unfolding timer_down timer_start
timer_outputs count trigger t = timer_start count trigger (timer_down t)

-- A number of steps without a trigger.
pub timer_wait : ℕ → ℕ → Timer → Timer
timer_wait count zero t = t
timer_wait count (suc n) t = timer_outputs count 0 (timer_wait count n t)
