-- ===== src/Nested/Machine/Tests.antt =====
-- A state machine with the simulations 910 and 911; the world counts the updates since the last reset.
use ortd.Prelude.{ℕ, ◌+◌, ◌≡◌, ◌⊎◌, refl, false, none, some, pos, ◌==◌, ltb, if◌then◌else◌, arith}
use ortd.Nested.Slots.{Nest, allocate_slots, add_next}
use ortd.Nested.Slots.Invariant.{IsValid, IsNew, add_next-IsValid, world-IsValid}
use ortd.Nested.Slots.Current.{allocated-IsValid}
use ortd.Nested.Machine.{Simulations, Machine, load_schematics, machine_update, case_switch}
use ortd.Nested.Machine.Load.{IsReady, IsLoaded, load_schematics_lem}
use ortd.Nested.Machine.Run.{Ends, machine_update_total}
use ortd.Nested.Machine.Switch.{IsSelected, case_switch_lem}

-- After three updates the first state is asked for, after four the eighth.
abbrev sims : Simulations ℕ ℕ ℕ
sims = record {
  trigger = λ c w. w;
  calc_outputs = λ g c w. w;
  update_states = λ g c w. w + 1;
  reset = λ c w. 0;
  next_state = λ c w. if w == 3 then pos 1 else if w == 4 then pos 8 else pos 0;
  globals = λ c w. w;
  outputs = λ c w. w;
}

abbrev no_slots : Nest ℕ
no_slots = record {
  configured = false;
  num_slots = 0;
  used_slots = 0;
  add_pointer = 0;
  sim = λ i. none;
  initialised = λ i. false;
  current_sim = none;
  current_slot = 0;
  current_slot_nr = 0;
  locked = false;
  alive = λ c. ltb 9 c;
  world = 0;
}

abbrev slots : Nest ℕ
slots = allocate_slots 3 no_slots

-- The simulation of schematic k.
abbrev make : ℕ → ℕ
make k = k + 10

make_once : (i j : ℕ) → make i ≡ make j → i ≡ j
make_once i j e = omega arith

slots-IsReady : IsReady make make_once 900 slots
unfolding allocate_slots
slots-IsReady = record { exists = λ k h. ground arith; nowhere = λ k i h e. cc }

slots-IsValid : IsValid slots
slots-IsValid = allocated-IsValid no_slots 3 refl refl

load_schematics_example :
    (t : Nest ℕ) × ((load_schematics (λ k. some (make k)) 900 2 slots ≡ some t)
      × IsLoaded make make_once 900 2 slots t)
unfolding allocate_slots
load_schematics_example =
    load_schematics_lem make make_once (λ k. some (make k)) 900 2 slots slots-IsValid slots-IsReady
      (λ k h. refl) (omega arith)

-- Both loaded, the second one current, after n updates.
abbrev two : Nest ℕ
two = (add_next 911 (add_next 910 slots).1).1

abbrev after : ℕ → Machine ℕ ℕ
after n = record { nest = record two { world = n }; active_state = 1; global_states = 0 }

IsNew-910 : IsNew 910 slots
unfolding allocate_slots
IsNew-910 = record { exists = refl; nowhere = λ i e. cc }

IsNew-911 : IsNew 911 (add_next 910 slots).1
unfolding allocate_slots add_next
IsNew-911 = record { exists = refl; nowhere = λ i e. ground arith }

two-IsValid : IsValid two
two-IsValid =
    add_next-IsValid 911 (add_next 910 slots).1 (add_next-IsValid 910 slots slots-IsValid IsNew-910)
      IsNew-911

machine_update_example : Ends (after 2) (machine_update sims (after 2))
unfolding allocate_slots add_next
machine_update_example =
    machine_update_total sims (after 2) (world-IsValid two 2 two-IsValid) (omega arith)

-- The third slot is not used: the simulation that was executed before goes on.
case_switch_example :
    (t : Nest ℕ) × (d : ℕ) × (case_switch sims 0 (pos 2) two ≡ some (1, t))
    × (t.current_sim ≡ some d)
    × (t.world ≡ 1)
    × (t.sim ≡ two.sim)
    × IsValid t
    × (IsSelected sims two (pos 2) d ⊎ ((d ≡ 911) × ((e : ℕ) → ¬ IsSelected sims two (pos 2) e)))
unfolding allocate_slots add_next
case_switch_example = case_switch_lem sims 0 two (pos 2) 911 two-IsValid refl
