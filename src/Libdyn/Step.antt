-- ===== src/Libdyn/Step.antt =====
-- libdyn.c: `libdyn_simulation_step` and the events. The set bits of `event_active` are a test on the
-- numbers of events; the computational functions of the blocks are a parameter.
pub mod Events
pub mod Outputs
mod Tests
use ortd.Prelude.{
  ℕ, zero, suc, ◌+◌, ◌%◌, ◌^◌, Bool, true, false, not, ◌||◌, ◌&&◌, Option, none, some, List, [],
  ◌∷◌, ◌++◌, ◌==◌, ltb, update, if◌then◌else◌,
}

-- The events and the clocks of a simulation; the number of clocks is the length of the list.
pub record Clocks : Type 0 where
  pub num_events : ℕ
  pub event_active : ℕ → Bool
  pub clock_multiplier : List ℕ
  pub stepcounter : ℕ

-- `libdyn_new_event`
pub new_event : Clocks → ℕ × Clocks
new_event s = (s.num_events, record s { num_events = s.num_events + 1 })

-- `libdyn_event_trigger`, `libdyn_event_trigger_mask` and `libdyn_event_reset`
pub event_trigger : ℕ → Clocks → Clocks
event_trigger event s = record s { event_active = update s.event_active event true }

pub event_trigger_mask : (ℕ → Bool) → Clocks → Clocks
event_trigger_mask mask s = record s { event_active = mask }

pub event_reset : Clocks → Clocks
event_reset s = record s { event_active = λ e. false }

-- `libdyn_new_event_notifier`: the block's `event_map` is longer by one entry, or the result is 1.
pub new_event_notifier : ℕ → List ℕ → Bool × List ℕ
new_event_notifier event event_map =
    if ltb 32 event then (true, event_map) else (false, event_map ++ event ∷ [])

-- `libdyn_event_check`, for an entry of the block's `event_map`.
pub event_check : Clocks → List ℕ → ℕ → Option Bool
event_check s [] event = none
event_check s (e ∷ event_map) zero = some (s.event_active e)
event_check s (e ∷ event_map) (suc event) = event_check s event_map event

-- `libdyn_event_mapper`: bit i of the result for entry i of the block's `event_map`.
pub event_mapper : Clocks → List ℕ → List Bool
event_mapper s [] = []
event_mapper s (e ∷ event_map) = s.event_active e ∷ event_mapper s event_map

-- `event_mask` of a block: the bits of its `event_map`.
pub event_mask : List ℕ → ℕ → Bool
event_mask [] e = false
event_mask (f ∷ event_map) e = e == f || event_mask event_map e

any_active : Clocks → List ℕ → Bool
any_active s [] = false
any_active s (e ∷ event_map) = s.event_active e || any_active s event_map

-- `__libdyn_event_triggered`: the bits in common are more than 0 as an `int`, so bit 31, the sign, is
-- not among them and another bit is.
pub event_triggered : Clocks → List ℕ → Bool
unfolding any_active event_mask
event_triggered s event_map =
    if s.event_active 31 && event_mask event_map 31 then false else any_active s event_map

abbrev pub length {ℓ} : {A : Type ℓ} → List A → ℕ
length [] = 0
length (x ∷ xs) = suc (length xs)

abbrev pub max_events : ℕ
max_events = 32

-- `libdyn_clock_event_generator_addclock`
pub addclock : ℕ → Clocks → Clocks
addclock mult s =
    if ltb (length s.clock_multiplier) max_events
    then record s { clock_multiplier = s.clock_multiplier ++ mult ∷ [] }
    else s

-- One round of `libdyn_clock_event_generator`.
pub tick : ℕ → ℕ → Clocks → Clocks
tick i mult s = if s.stepcounter % mult == 0 then event_trigger i s else s

-- Its loop, from clock i on.
pub generate_from : ℕ → List ℕ → Clocks → Clocks
generate_from i [] s = s
generate_from i (mult ∷ rest) s = generate_from (suc i) rest (tick i mult s)

pub clock_event_generator : Clocks → Clocks
clock_event_generator s = generate_from 0 s.clock_multiplier s

-- A callback function and its data, by their addresses, where one is set.
pub record Callback : Type 0 where
  pub func : ℕ
  pub userdat : ℕ

-- `sync_callback` of a simulation.
pub record SyncCallbacks : Type 0 where
  pub sync_func : Option Callback
  pub sync_constructor : Option Callback
  pub sync_destructor : Option Callback
  pub terminate_thread : Option Callback
  pub sync_callback_state : ℕ
  pub constructor_state : ℕ

is_set : Option Callback → Bool
is_set none = false
is_set (some c) = true

-- The four functions that set a callback: true is the result 1, and false is 0, for a callback that
-- is set already.
pub set_sync_callback : Callback → SyncCallbacks → Bool × SyncCallbacks
unfolding is_set
set_sync_callback c s =
    if is_set s.sync_func
    then (false, s)
    else (true, record s { sync_func = some c; sync_callback_state = 0 })

pub set_sync_callback_constructor : Callback → SyncCallbacks → Bool × SyncCallbacks
unfolding is_set
set_sync_callback_constructor c s =
    if is_set s.sync_constructor
    then (false, s)
    else (true, record s { sync_constructor = some c; constructor_state = 0 })

pub set_sync_callback_destructor : Callback → SyncCallbacks → Bool × SyncCallbacks
unfolding is_set
set_sync_callback_destructor c s =
    if is_set s.sync_destructor then (false, s) else (true, record s { sync_destructor = some c })

pub set_sync_callback_terminate_thread : Callback → SyncCallbacks → Bool × SyncCallbacks
unfolding is_set
set_sync_callback_terminate_thread c s =
    if is_set s.terminate_thread then (false, s) else (true, record s { terminate_thread = some c })

pub data StepFlag : Type 0 where
  calcoutputs updatestates preparereset resetstates : StepFlag

-- A simulation that runs: `needs_output_update` of each block, and what the blocks work on.
pub record Running (W : Type 0) : Type 0 where
  pub clocks : Clocks
  pub callbacks : SyncCallbacks
  pub needs_output_update : ℕ → Bool
  pub world : W

-- A call gives the block's `needs_output_update`, which it may change, and the world.
module _ {W : Type 0} (d_feedthrough : ℕ → Bool) (event_map : ℕ → List ℕ)
    (comp_func : StepFlag → ℕ → Bool × W → Bool × W) where
  pub exec : StepFlag → ℕ → Running W → Running W
  exec flag b s =
      let (needs, w) = comp_func flag b (s.needs_output_update b, s.world) in
      record s { needs_output_update = update s.needs_output_update b needs; world = w }

  -- One block of the execution list.
  pub output_block : ℕ → Running W → Running W
  output_block b s =
      let s' = exec calcoutputs b s in
      if d_feedthrough b
      then s'
      else if s.needs_output_update b
      then record s' { needs_output_update = update s'.needs_output_update b false }
      else s

  pub calc_outputs : List ℕ → Running W → Running W
  calc_outputs [] s = s
  calc_outputs (b ∷ list) s = calc_outputs list (output_block b s)

  -- One block of the list of state updates.
  pub update_block : ℕ → Running W → Running W
  update_block b s =
      if event_triggered s.clocks (event_map b)
      then exec updatestates b
          (record s { needs_output_update = update s.needs_output_update b true })
      else s

  pub update_states : List ℕ → Running W → Running W
  update_states [] s = s
  update_states (b ∷ list) s = update_states list (update_block b s)

  -- `libdyn_simulation_step` on a simulation that is initialised; the lists are the two execution
  -- lists, and the first is not empty.
  pub step : Bool → List ℕ → List ℕ → Running W → Running W
  step false execution_list execution_sup_list s = calc_outputs execution_list s
  step true execution_list execution_sup_list s =
      let clocks' = record s.clocks { stepcounter = (s.clocks.stepcounter + 1) % 2 ^ 32 } in
      let s' = update_states execution_sup_list (record s { clocks = clocks' }) in
      record s' { clocks = event_reset s'.clocks }

  -- The loop of `libdyn_simulation_resetblocks` over the blocks 0 to n - 1.
  pub reset_blocks : ℕ → Running W → Running W
  reset_blocks zero s = s
  reset_blocks (suc b) s = exec resetstates b (exec preparereset b (reset_blocks b s))

  -- `libdyn_simulation_resetblocks`
  pub resetblocks : ℕ → Running W → Running W
  resetblocks num_blocks s =
      let s' = reset_blocks num_blocks s in
      record s' {
        clocks = record s'.clocks { stepcounter = 0 };
        callbacks = record s'.callbacks { sync_callback_state = 0 };
      }
