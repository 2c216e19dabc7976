-- ===== src/Libdyn/Step/Tests.antt =====
-- Three blocks, of which block 1 has feedthrough; the calls that are made are recorded.
use ortd.Prelude.{
  ℕ, ◌≡◌, refl, Bool, false, none, List, [], ◌∷◌, ◌++◌, ◌==◌, InList, here, there, arith,
}
use ortd.Libdyn.Step.{
  Clocks, SyncCallbacks, reset_blocks, resetblocks, StepFlag, Running, exec, output_block,
  calc_outputs, event_triggered, event_mask, any_active,
}
use ortd.Libdyn.Step.Outputs.{calc_outputs_lem}

abbrev clocks : Clocks
clocks = record {
  num_events = 2;
  event_active = λ e. e == 31;
  clock_multiplier = 2 ∷ 3 ∷ [];
  stepcounter = 4;
}

abbrev no_callbacks : SyncCallbacks
no_callbacks = record {
  sync_func = none;
  sync_constructor = none;
  sync_destructor = none;
  terminate_thread = none;
  sync_callback_state = 0;
  constructor_state = 0;
}

abbrev feedthrough : ℕ → Bool
feedthrough b = b == 1

abbrev no_events : ℕ → List ℕ
no_events b = []

abbrev record_block : StepFlag → ℕ → Bool × List ℕ → Bool × List ℕ
record_block flag b s = (s.0, s.1 ++ b ∷ [])

abbrev running : Running (List ℕ)
running = record {
  clocks = clocks;
  callbacks = no_callbacks;
  needs_output_update = λ b. b == 2;
  world = [];
}

outputs_run :
    (calc_outputs feedthrough no_events record_block (0 ∷ 1 ∷ 2 ∷ []) running).world ≡ 1 ∷ 2 ∷ []
unfolding calc_outputs output_block exec
outputs_run = refl

-- The reset calls each block twice.
reset_run : (resetblocks feedthrough no_events record_block 2 running).world ≡ 0 ∷ 0 ∷ 1 ∷ 1 ∷ []
unfolding resetblocks reset_blocks exec
reset_run = refl

-- Event 31 is the sign of the mask: a block that has it is not triggered.
sign_run : event_triggered clocks (31 ∷ []) ≡ false
unfolding event_triggered event_mask any_active
sign_run = refl

calc_outputs_example :
    let s = calc_outputs feedthrough no_events record_block (0 ∷ 1 ∷ 2 ∷ []) running in
    (s.world ≡ 1 ∷ 2 ∷ [])
    × ((c : ℕ)
        → InList c (0 ∷ 1 ∷ 2 ∷ [])
        → feedthrough c ≡ false
        → s.needs_output_update c ≡ false)
    × ((c : ℕ)
        → ¬ InList c (0 ∷ 1 ∷ 2 ∷ [])
        → s.needs_output_update c ≡ running.needs_output_update c)
calc_outputs_example =
    calc_outputs_lem feedthrough no_events record_block (0 ∷ 1 ∷ 2 ∷ []) running (omega arith)

settled :
    (c : ℕ) → InList c (0 ∷ 1 ∷ []) → feedthrough c ≡ false → running.needs_output_update c ≡ false
settled c (here p) e = rw p refl
settled c (there (here p)) e = rw p refl
settled c (there (there m)) e = elim m [ ]
