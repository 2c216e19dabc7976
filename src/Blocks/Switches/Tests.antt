-- ===== src/Blocks/Switches/Tests.antt =====
-- Runs of the switches, and the theorem at an input that meets the hypotheses.
use ortd.Prelude.{◌≡◌, refl, some, List, [], ◌∷◌, length, arith, ℤ, pos, ◌-ℤ◌}
use ortd.Prelude.Copy.{copy}
use ortd.Blocks.Samples.{whole}
use ortd.Blocks.Switches.{
  event_demux, is_event, steps_update, memory_outputs, trig_switch_init, trig_switch_run,
}
use ortd.Blocks.Switches.Trigger.{IsSwitched, trig_switch_run-init}

second_event : event_demux whole 0 3 (pos 2) ≡ pos 0 ∷ pos 1 ∷ pos 0 ∷ []
unfolding event_demux is_event
second_event = refl

next_step : steps_update 2 (pos 4 ∷ pos 9 ∷ []) (pos 5) 0 ≡ some 1
unfolding steps_update
next_step = refl

fed_through :
    memory_outputs whole 1 (pos 7 ∷ []) (pos 1) (pos 3 ∷ []) (pos 0 ∷ []) ≡ some (pos 7 ∷ [])
unfolding memory_outputs copy
fed_through = refl

first_input : trig_switch_init whole 2 (pos 1) ≡ some (pos 0)
unfolding trig_switch_init ◌-ℤ◌
first_input = refl

trig_switch_run-init_example :
    (outs : List ℤ) × (state : ℤ) × (trig_switch_run whole 2
        ((pos 2, pos 5 ∷ pos 6 ∷ []) ∷ (pos 9, pos 7 ∷ pos 8 ∷ []) ∷ [])
        (pos 0)
      ≡ some (outs, state))
    × (length outs ≡ 2)
    × IsSwitched 2 state
trig_switch_run-init_example =
    trig_switch_run-init whole 2 (pos 1) (pos 0)
      ((pos 2, pos 5 ∷ pos 6 ∷ []) ∷ (pos 9, pos 7 ∷ pos 8 ∷ []) ∷ [])
      ((refl, λ h. (1, refl, omega arith)), ((refl, λ h. (8, refl, omega arith)), tt)) first_input
