-- ===== src/Nested/Machine.antt =====
-- modules/nested/nested_block.cpp: the blocks that hold a nest of simulations: the state machine, the
-- switch between cases and the for loop. The simulations are parameters: what triggering events, a
-- step and a reset do to the world, and what the output ports hold. `none` is a null pointer.
pub mod Load
pub mod Run
pub mod Switch
mod Tests
use ortd.Prelude.{
  ℕ, zero, suc, ◌+◌, ◌-◌, Bool, true, false, Option, none, some, ℤ, pos, negsuc, ◌>>=◌,
  if◌then◌else◌, ltb, not,
}
use ortd.Nested.Slots.{Nest, allocate_slots, add_next, on_current, set_current_simulation}

-- What a block of this kind uses of the simulations in its nest: `W` is the world, `G` the global
-- states of a state machine, `O` the values of the output ports.
pub record Simulations (W G O : Type 0) : Type 0 where
  pub trigger : ℕ → W → W
  pub calc_outputs : G → ℕ → W → W
  pub update_states : G → ℕ → W → W
  pub reset : ℕ → W → W
  pub next_state : ℕ → W → ℤ
  pub globals : ℕ → W → G
  pub outputs : ℕ → W → O

-- The number of a state is a `double` in the source, which only ever holds an `int`.
pub record Machine (W G : Type 0) : Type 0 where
  pub nest : Nest W
  pub active_state : ℕ
  pub global_states : G

module _ {W : Type 0} where
  -- A value that is read from the current simulation.
  pub from_current : {A : Type 0} → (ℕ → W → A) → Nest W → Option A
  from_current f s = do sim ← s.current_sim; some (f sim s.world)

  -- On to the next schematic, unless the simulation could not be added.
  pub if_added : ℤ × Nest W → (Nest W → Option (Nest W)) → Option (Nest W)
  if_added (pos r, t) rest = rest t
  if_added (negsuc r, t) rest = none

  -- The loop that loads the schematics first to first + n - 1; `setup` gives the simulation that
  -- `irpar_setup` makes, or none.
  pub load_schematics : (ℕ → Option ℕ) → ℕ → ℕ → Nest W → Option (Nest W)
  load_schematics setup first zero s = some s
  load_schematics setup first (suc n) s = do
    sim ← setup first
    if_added (add_next sim s) (load_schematics setup (suc first) n)

module _ {W G O : Type 0} (sims : Simulations W G O) where
  -- What follows a state update, by the rounded value of the port for the next state: this value less
  -- one is the state to switch to, -1 is none, and with -2 the global states alone are copied.
  pub transition : ℤ → Machine W G → Option (Machine W G)
  transition (pos zero) m = some m
  transition (pos (suc active)) m = do
    g ← from_current sims.globals m.nest
    n1 ← on_current sims.reset m.nest
    (ret, n2) ← set_current_simulation (pos active) n1
    some (record { nest = n2; active_state = active; global_states = g })
  transition (negsuc zero) m = do
    g ← from_current sims.globals m.nest
    some (record m { global_states = g })
  transition (negsuc (suc n)) m = some m

  -- `io_sync` with update_states == 1.
  pub machine_update : Machine W G → Option (Machine W G)
  machine_update m = do
    n1 ← on_current sims.trigger m.nest
    n2 ← on_current (sims.update_states m.global_states) n1
    active ← from_current sims.next_state n2
    transition active (record m { nest = n2 })

  -- `io_sync` with update_states == 0: the number of the state and the outputs.
  pub machine_outputs : Machine W G → Option ((ℕ × O) × Machine W G)
  machine_outputs m = do
    n1 ← on_current sims.trigger m.nest
    n2 ← on_current (sims.calc_outputs m.global_states) n1
    out ← from_current sims.outputs n2
    some ((m.active_state, out), record m { nest = n2 })

  -- `compu_func_statemachine_class::reset`, with `inittial_state - 1` and the initial global states.
  pub machine_reset : ℤ → G → Machine W G → Option (Machine W G)
  machine_reset initial initial_globals m = do
    n1 ← on_current sims.reset m.nest
    (ret, n2) ← set_current_simulation initial n1
    some (record m { nest = n2; global_states = initial_globals })

  -- One simulation step with both parts.
  pub whole_step : G → Nest W → Option (Nest W)
  whole_step g s = do
    n1 ← on_current sims.trigger s
    n2 ← on_current (sims.calc_outputs g) n1
    on_current (sims.update_states g) n2

  -- `ld_CaseSwitchNest::calcOutputs`, with `*SelectSignal - 1`.
  pub case_switch : G → ℤ → Nest W → Option (O × Nest W)
  case_switch g selected s = do
    (ret, n1) ← set_current_simulation selected s
    n2 ← whole_step g n1
    out ← from_current sims.outputs n2
    some (out, n2)

  -- The loop of `ld_ForLoopNest::calcOutputs` with n rounds left, the counter at i; the counter is an
  -- input of the simulation.
  pub for_loop : (ℕ → G) → ℕ → ℕ → Nest W → Option (Nest W)
  for_loop counter zero i s = some s
  for_loop counter (suc n) i s = do t ← whole_step (counter i) s; for_loop counter n (suc i) t

  -- `ld_ForLoopNest::calcOutputs`, where the number of rounds is not negative.
  pub for_loop_outputs : (ℕ → G) → Bool → ℕ → Nest W → Option (O × Nest W)
  for_loop_outputs counter reset_states iterations s = do
    n1 ← for_loop counter iterations 0 s
    out ← from_current sims.outputs n1
    n2 ← if reset_states then on_current sims.reset n1 else some n1
    some (out, n2)
