-- ===== src/Nested/Slots/Tests.antt =====
-- Slots for three simulations, with 10 and 11 added.
use ortd.Prelude.{ℕ, ◌≡◌, refl, true, false, none, some, pos, ltb, arith}
use ortd.Nested.Slots.{
  Nest, allocate_slots, add_next, remove, delete, del_simulation, del_and_switch,
  is_current_simulation, slotindex_ok, is_free,
}
use ortd.Nested.Slots.Invariant.{IsValid, IsNew, Keeps, add_next-IsValid, del_simulation-IsValid}
use ortd.Nested.Slots.Current.{
  Reach, start, next, added, current_lives, del_and_switch_self, allocated-IsValid,
}

-- As the constructor leaves it.
abbrev no_slots : Nest ℕ
no_slots = record {
  configured = false;
  num_slots = 0;
  used_slots = 0;
  add_pointer = 0;
  sim = λ i. none;
  initialised = λ i. false;
  current_sim = none;
  current_slot = 0;
  current_slot_nr = 0;
  locked = false;
  alive = λ c. ltb 9 c;
  world = 0;
}

abbrev slots : Nest ℕ
slots = allocate_slots 3 no_slots

abbrev one : Nest ℕ
one = (add_next 10 slots).1

abbrev two : Nest ℕ
two = (add_next 11 one).1

IsNew-10 : IsNew 10 slots
unfolding allocate_slots
IsNew-10 = record { exists = refl; nowhere = λ i e. cc }

IsNew-11 : IsNew 11 one
unfolding allocate_slots add_next
IsNew-11 = record { exists = refl; nowhere = λ i e. ground arith }

two-Reach : Reach slots two
two-Reach = next (next start (added slots 10 IsNew-10)) (added one 11 IsNew-11)

current_lives_example : (c : ℕ) × ((two.current_sim ≡ some c) × (two.alive c ≡ true))
unfolding allocate_slots add_next
current_lives_example = current_lives no_slots two 3 refl refl two-Reach (omega arith)

slots-IsValid : IsValid slots
slots-IsValid = allocated-IsValid no_slots 3 refl refl

two-IsValid : IsValid two
two-IsValid = add_next-IsValid 11 one (add_next-IsValid 10 slots slots-IsValid IsNew-10) IsNew-11

-- Slot 0 is free again.
abbrev freed : Nest ℕ
freed = remove 0 two

freed_run : del_simulation 0 two ≡ some (pos 1, freed)
unfolding del_simulation is_current_simulation slotindex_ok is_free allocate_slots add_next
freed_run = refl

freed-IsValid : IsValid freed
unfolding Keeps del_simulation is_current_simulation slotindex_ok is_free allocate_slots add_next
freed-IsValid = (del_simulation-IsValid 0 two two-IsValid).0

IsNew-12 : IsNew 12 freed
unfolding allocate_slots add_next remove delete
IsNew-12 = record { exists = refl; nowhere = λ i e. ground arith }

-- The current simulation 11 of slot 1 is deleted, and is the current one afterwards.
del_and_switch_run :
    (t : Nest ℕ) × ((del_and_switch 1 1 two ≡ some (pos 1, t))
      × ((t.current_sim ≡ some 11) × (t.alive 11 ≡ false)))
unfolding allocate_slots add_next
del_and_switch_run = del_and_switch_self two 1 11 two-IsValid (omega arith) refl
