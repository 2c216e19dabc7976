-- ===== src/Nested/Machine/Run.antt =====
-- The state machine over the slots: it always ends, and switches as the simulations say.
use ortd.Prelude.{
  ℕ, zero, suc, ◌<◌, ◌≡◌, refl, ◌∙◌, Bool, false, Option, none, some, ℤ, pos, negsuc,
}
use ortd.Nested.Slots.{Nest, is_free, on_current, set_current_simulation}
use ortd.Nested.Slots.Invariant.{IsValid, Keeps, set_current_simulation-IsValid, world-IsValid}
use ortd.Nested.Machine.{Simulations, Machine, from_current, transition, machine_update}

has_current : (o : Option ℕ) → is_free o ≡ false → (c : ℕ) × (o ≡ some c)
unfolding is_free
has_current none e = cc
has_current (some c) e = (c, refl)

module _ {W : Type 0} where
  pub on_current_lem :
      (f : ℕ → W → W) (s : Nest W) (c : ℕ)
      → s.current_sim ≡ some c
      → on_current f s ≡ some (record s { world = f c s.world })
  unfolding on_current
  on_current_lem f s c e = rw (e, on_current) refl

  pub from_current_lem :
      {A : Type 0} (f : ℕ → W → A) (s : Nest W) (c : ℕ)
      → s.current_sim ≡ some c
      → from_current f s ≡ some (f c s.world)
  unfolding from_current
  from_current_lem f s c e = rw (e, from_current) refl

  pub current_is : (s : Nest W) → IsValid s → 0 < s.used_slots → (c : ℕ) × (s.current_sim ≡ some c)
  current_is s v h =
      let (c, e) = has_current (s.sim s.current_slot_nr) (v.in_use h) in (c, v.current ∙ e)

  ended :
      (s : Nest W) (o : Option (Option Bool × Nest W))
      → Keeps s o
      → (r : Option Bool) × ((t : Nest W) × ((o ≡ some (r, t))
            × (IsValid t × (t.used_slots ≡ s.used_slots))))
  unfolding Keeps
  ended s none k = elim k [ ]
  ended s (some (r, t)) k = (r, (t, (refl, k)))

  pub switches :
      (s : Nest W) (slot : ℤ)
      → IsValid s
      → (r : Option Bool) × ((t : Nest W) × ((set_current_simulation slot s ≡ some (r, t))
            × (IsValid t × (t.used_slots ≡ s.used_slots))))
  switches s slot v =
      ended s (set_current_simulation slot s) (set_current_simulation-IsValid slot s v)

module _ {W G : Type 0} where
  -- The machine ends in a valid state with as many schematics.
  pub Ends : Machine W G → Option (Machine W G) → Type 0
  Ends m o =
      (m' : Machine W G) × ((o ≡ some m')
        × (IsValid m'.nest × (m'.nest.used_slots ≡ m.nest.used_slots)))

module _ {W G O : Type 0} (sims : Simulations W G O) where
  -- A transition to the state a, by what the switch of the slots gives.
  pub transition_sets :
      (m : Machine W G) (c a : ℕ) (r : Option Bool) (t : Nest W)
      → m.nest.current_sim ≡ some c
      → set_current_simulation (pos a) (record m.nest { world = sims.reset c m.nest.world })
        ≡ some (r, t)
      → transition sims (pos (suc a)) m
        ≡ some (record { nest = t; active_state = a; global_states = sims.globals c m.nest.world })
  unfolding transition
  transition_sets m c a r t e f =
      rw (from_current_lem sims.globals m.nest c e, on_current_lem sims.reset m.nest c e, f) refl

  transition_total :
      (r : ℤ) (m : Machine W G)
      → IsValid m.nest
      → 0 < m.nest.used_slots
      → Ends m (transition sims r m)
  unfolding transition Ends
  transition_total (pos zero) m v h = (m, (refl, (v, refl)))
  transition_total (pos (suc a)) m v h =
      let (c, e) = current_is m.nest v h in
      let n1 = record m.nest { world = sims.reset c m.nest.world } in
      let (ret, (n2, (f, (v2, k)))) = switches n1 (pos a) (world-IsValid m.nest _ v) in
      (
        record { nest = n2; active_state = a; global_states = sims.globals c m.nest.world },
        (
          rw (from_current_lem sims.globals m.nest c e, on_current_lem sims.reset m.nest c e, f)
              refl,
          (v2, k),
        ),
      )
  transition_total (negsuc zero) m v h =
      let (c, e) = current_is m.nest v h in
      (
        record m { global_states = sims.globals c m.nest.world },
        (rw (from_current_lem sims.globals m.nest c e) refl, (v, refl)),
      )
  transition_total (negsuc (suc n)) m v h = (m, (refl, (v, refl)))

  -- The update of a machine whose nest has a current simulation: this simulation alone is stepped, with
  -- the global states of the machine, and what follows is decided by what it then puts out.
  pub machine_update_lem :
      (m : Machine W G) (c : ℕ)
      → m.nest.current_sim ≡ some c
      → machine_update sims m ≡ (
          let w = sims.update_states m.global_states c (sims.trigger c m.nest.world) in
          transition sims (sims.next_state c w) (record m { nest = record m.nest { world = w } }))
  unfolding machine_update on_current from_current
  machine_update_lem m c e = rw e refl

  -- In a nest with a valid set of slots, one of them in use, an update of the state machine always ends,
  -- whatever the simulations ask for: it meets no null pointer and waits for no mutex, and it leaves
  -- the slots valid.
  pub machine_update_total :
      (m : Machine W G) → IsValid m.nest → 0 < m.nest.used_slots → Ends m (machine_update sims m)
  unfolding Ends
  machine_update_total m v h =
      let (c, e) = current_is m.nest v h in
      let w = sims.update_states m.global_states c (sims.trigger c m.nest.world) in
      rw (machine_update_lem m c e) (
        transition_total (sims.next_state c w) (record m { nest = record m.nest { world = w } })
          (world-IsValid m.nest w v) h)
