-- ===== src/Blocks/Switches.antt =====
-- basic_ldblocks.c: the blocks that choose. `compu_func_switch2to1`, `ortd_compu_func_eventDemux`,
-- `ortd_compu_func_TrigSwitch1toN`, `ortd_compu_func_steps` and `ortd_compu_func_memory`. The inputs of
-- one element each are a list; an access outside of it is `none`.
mod Trigger
mod Tests
use ortd.Prelude.{
  ℕ, zero, suc, ◌+◌, ◌>>=◌, Bool, true, false, Option, none, some, List, [], ◌∷◌, get_elem?,
  if◌then◌else◌, ℤ, pos, negsuc, ◌+ℤ◌, ◌-ℤ◌, ltb_ℤ, leb, ltb, ◌^◌, place, ◌&&◌, ◌||◌,
}
use ortd.Prelude.Copy.{copy}
use ortd.Blocks.{Floating}

-- The conversion of a whole double to `int`, which is undefined outside of the range.
pub to_int32 : ℤ → Option ℤ
to_int32 (pos n) = if ltb n (2 ^ 31) then some (pos n) else none
to_int32 (negsuc n) = if ltb n (2 ^ 31) then some (negsuc n) else none

module _ (d : Floating) where
  open d use {F, nought, unit, above_zero, above_half, round}

  -- `compu_func_switch2to1`
  pub switch2to1 : F → F → F → F
  switch2to1 control_in inp1 inp2 = if above_zero control_in then inp1 else inp2

  -- `ortd_compu_func_eventDemux`: the outputs from number i on.
  pub is_event : F → ℕ → F
  is_event inp i = elim (round inp) [
    | pos n ↦ if leb n (suc i) && leb (suc i) n then unit else nought
    | negsuc n ↦ nought
  ]

  pub event_demux : ℕ → ℕ → F → List F
  unfolding is_event
  event_demux i zero inp = []
  event_demux i (suc n) inp = is_event inp i ∷ event_demux (suc i) n inp

  -- `ortd_compu_func_TrigSwitch1toN`: INIT, RESETSTATES with the state and the output, and CALCOUTPUTS
  -- with the update of the state.
  pub trig_switch_init : ℕ → ℤ → Option ℤ
  trig_switch_init n initial_state =
      if ltb_ℤ (pos n) initial_state || ltb_ℤ initial_state (pos 1)
      then none
      else some (initial_state -ℤ pos 1)

  pub trig_switch_reset : ℤ → ℤ × F
  trig_switch_reset initial_state = (initial_state -ℤ pos 1, nought)

  pub trig_switch_state : ℕ → F → ℤ → Option ℤ
  unfolding to_int32
  trig_switch_state n event state =
      if above_half event
      then (to_int32 (round event) >>= λ e. some (if ltb_ℤ (pos n) e then state else e -ℤ pos 1))
      else some state

  pub trig_switch_outputs : ℕ → F → List F → ℤ → Option (F × ℤ)
  unfolding trig_switch_state
  trig_switch_outputs n event inputs state = do
    state1 ← trig_switch_state n event state
    i ← place state1
    out ← get_elem? inputs i
    some (out, state1)

  -- The steps: each event with the switched inputs at that time.
  pub trig_switch_run : ℕ → List (F × List F) → ℤ → Option (List F × ℤ)
  trig_switch_run n [] state = some ([], state)
  trig_switch_run n ((event, inputs) ∷ steps) state = do
    (out, state1) ← trig_switch_outputs n event inputs state
    (outs, state2) ← trig_switch_run n steps state1
    some (out ∷ outs, state2)

  -- `ortd_compu_func_memory`: CALCOUTPUTS, and UPDATESTATES with the new state.
  pub memory_outputs : ℕ → List F → F → List F → List F → Option (List F)
  memory_outputs memsize inp rememberin state out =
      if above_zero rememberin then copy memsize inp 0 out 0 else copy memsize state 0 out 0

  pub memory_update : ℕ → List F → F → List F → Option (List F)
  memory_update memsize inp rememberin state =
      if above_zero rememberin then copy memsize inp 0 state 0 else some state

-- `ortd_compu_func_steps`: CALCOUTPUTS and UPDATESTATES.
pub steps_outputs : {A : Type 0} → List A → ℕ → Option A
steps_outputs values state = get_elem? values state

pub steps_update : ℕ → List ℤ → ℤ → ℕ → Option ℕ
steps_update numsteps times stepcounter state = get_elem? times state >>= λ time. some (
    if ltb_ℤ stepcounter time then state else if leb numsteps (state + 1) then state else state + 1)
