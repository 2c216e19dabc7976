-- ===== src/Nested/Slots.antt =====
-- libdyn_cpp.cpp: the slots of `libdyn_nested2`, which hold simulations one of which is the current
-- one. A simulation is a number; what its steps and resets do to the world is a parameter.
pub mod Invariant
pub mod Current
mod Tests
use ortd.Prelude.{
  ℕ, zero, suc, ◌+◌, Bool, true, false, not, Option, none, some, ℤ, pos, negsuc, List, [], ◌∷◌, leb,
  ltb, ◌==◌, update, ◌>>=◌, if◌then◌else◌,
}

-- `configured` is `sim_slots != NULL`, `alive` are the simulations that are not deleted.
pub record Nest (W : Type 0) : Type 0 where
  pub configured : Bool
  pub num_slots : ℕ
  pub used_slots : ℕ
  pub add_pointer : ℕ
  pub sim : ℕ → Option ℕ
  pub initialised : ℕ → Bool
  pub current_sim : Option ℕ
  pub current_slot : ℕ
  pub current_slot_nr : ℕ
  pub locked : Bool
  pub alive : ℕ → Bool
  pub world : W

-- The result of an operation that takes the mutex of the slots: `none` where it waits for ever.
abbrev pub Locked : Type 0 → Type 0 → Type 0
Locked W A = Option (A × Nest W)

unfoldable pub is_free : Option ℕ → Bool
is_free none = true
is_free (some sim) = false

-- The simulations that are left when the one of a slot is deleted.
pub delete : Option ℕ → (ℕ → Bool) → ℕ → Bool
delete none alive = alive
delete (some sim) alive = update alive sim false

module _ {W : Type 0} where
  -- `allocate_slots`
  unfoldable pub allocate_slots : ℕ → Nest W → Nest W
  allocate_slots n s = if s.configured then s else record s {
    configured = true;
    num_slots = n;
    used_slots = 0;
    sim = λ i. none;
    add_pointer = 0;
    current_slot_nr = 0;
    locked = false;
  }

  -- `slotindexOK`
  unfoldable pub slotindex_ok : Nest W → ℤ → Bool
  slotindex_ok s (negsuc n) = false
  slotindex_ok s (pos n) = ltb n s.used_slots

  -- `add_simulation` with the slot -1: the next free one.
  unfoldable pub add_next : ℕ → Nest W → ℤ × Nest W
  add_next sim s =
      if not s.configured
      then (pos 1, s)
      else if leb s.num_slots s.add_pointer
      then (negsuc 0, s)
      else (
        pos 1,
        record s {
          sim = update s.sim s.add_pointer (some sim);
          initialised = update s.initialised s.add_pointer false;
          current_sim = some sim;
          current_slot = s.add_pointer;
          current_slot_nr = s.add_pointer;
          add_pointer = s.add_pointer + 1;
          used_slots = s.used_slots + 1;
        },
      )

  -- `add_simulation` with another slot.
  pub add_at : ℕ → ℕ → Nest W → Locked W ℤ
  unfolding slotindex_ok is_free
  add_at slot sim s =
      if not s.configured
      then some (negsuc 0, s)
      else if not (slotindex_ok s (pos slot))
      then some (negsuc 0, s)
      else if s.locked
      then none
      else if not (is_free (s.sim slot))
      then some (negsuc 0, s)
      else some (
        pos 1,
        record s {
          sim = update s.sim slot (some sim);
          initialised = update s.initialised slot false;
          current_sim = some sim;
          current_slot = slot;
          current_slot_nr = s.add_pointer;
        },
      )

  -- `add_simulation` for a simulation that is set up.
  pub add_simulation : ℤ → ℕ → Nest W → Locked W ℤ
  add_simulation (pos slot) sim s = add_at slot sim s
  add_simulation (negsuc zero) sim s = some (add_next sim s)
  add_simulation (negsuc (suc n)) sim s = some (negsuc 0, s)

  -- `is_current_simulation`
  pub is_current_simulation : ℕ → Nest W → Bool
  unfolding slotindex_ok
  is_current_simulation slot s =
      if not s.configured
      then false
      else if not (slotindex_ok s (pos slot))
      then false
      else slot == s.current_slot_nr

  -- The simulation of a slot is deleted, and the slot marked as free.
  pub remove : ℕ → Nest W → Nest W
  unfolding delete
  remove slot s = record s { sim = update s.sim slot none; alive = delete (s.sim slot) s.alive }

  -- `del_simulation` of one slot.
  pub del_simulation : ℕ → Nest W → Locked W ℤ
  unfolding slotindex_ok is_current_simulation is_free
  del_simulation slot s =
      if not s.configured
      then some (negsuc 0, s)
      else if not (slotindex_ok s (pos slot))
      then some (negsuc 0, s)
      else if s.locked
      then none
      else if is_current_simulation slot s
      then some (negsuc 1, s)
      else if is_free (s.sim slot)
      then some (pos 1, s)
      else some (pos 1, remove slot s)

  -- `del_simulation` that switches to another slot.
  pub del_and_switch : ℕ → ℕ → Nest W → Locked W ℤ
  unfolding slotindex_ok is_free remove
  del_and_switch slot switchto s =
      if not s.configured
      then some (negsuc 0, s)
      else if not (slotindex_ok s (pos slot))
      then some (negsuc 0, s)
      else if not (slotindex_ok s (pos switchto))
      then some (negsuc 0, s)
      else if s.locked
      then none
      else if is_free (s.sim slot)
      then some (pos 1, s)
      else some (pos 1, record (remove slot s) { current_sim = s.sim switchto })

  unfoldable pub switch_to : ℕ → Nest W → Nest W
  switch_to slot s = record s {
    current_sim = s.sim slot;
    current_slot = slot;
    current_slot_nr = slot;
  }

  -- `set_current_simulation`; the function has no return statement where it succeeds, so the value is
  -- `none` there.
  unfoldable pub set_current_simulation : ℤ → Nest W → Locked W (Option Bool)
  unfolding slotindex_ok is_free
  set_current_simulation (negsuc n) s = some (some false, s)
  set_current_simulation (pos slot) s =
      if not s.configured
      then some (some false, s)
      else if not (slotindex_ok s (pos slot))
      then some (some false, s)
      else if s.locked
      then none
      else if is_free (s.sim slot)
      then some (some false, s)
      else some (none, switch_to slot s)

  -- The methods that go to the current simulation; `none` is a null pointer.
  unfoldable pub on_current : (ℕ → W → W) → Nest W → Option (Nest W)
  on_current f s = do sim ← s.current_sim; some (record s { world = f sim s.world })

  pub simulation_step_outpute : (ℕ → W → W) → Nest W → Option (Nest W)
  simulation_step_outpute step s = do
    t ← on_current step s
    some (record t { initialised = update t.initialised t.current_slot true })

  pub simulation_step_supdate : (ℕ → W → W) → Nest W → Option (Nest W)
  simulation_step_supdate step s =
      if s.initialised s.current_slot then on_current step s else some s

  -- `reset_blocks` of a slot that is not the current one; it returns with the mutex held where it is.
  pub reset_slot : (ℕ → W → W) → ℕ → Nest W → Option (Nest W)
  unfolding slotindex_ok
  reset_slot reset slot s =
      if not s.configured
      then some s
      else if not (slotindex_ok s (pos slot))
      then some s
      else if s.locked
      then none
      else if s.current_slot_nr == slot
      then some (record s { locked = true })
      else elim (s.sim slot) [
        | none ↦ some s
        | some sim ↦ some (record s { world = reset sim s.world })
      ]
