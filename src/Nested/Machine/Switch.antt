-- ===== src/Nested/Machine/Switch.antt =====
-- Which simulation a nest executes: the switch of a state machine, the switch between cases, and the
-- rounds of a for loop.
use mathlib.Core.Path.{subst}
use ortd.Prelude.{
  ℕ, zero, suc, ◌≤◌, ◌<◌, ◌≡◌, ◌⊎◌, inl, inr, dec_lt, Option-cases, negsuc, refl, ap, ◌∙◌, Bool,
  true, false, Option, none, some, ℤ, pos, if◌then◌else◌, arith,
}
use ortd.Nested.Slots.{Nest, is_free, slotindex_ok, switch_to, set_current_simulation}
use ortd.Nested.Slots.Invariant.{IsValid, Keeps, set_current_simulation-IsValid, world-IsValid}
use ortd.Nested.Machine.{
  Simulations, Machine, transition, machine_update, whole_step, case_switch, for_loop,
  for_loop_outputs,
}
use ortd.Nested.Machine.Run.{on_current_lem, from_current_lem, machine_update_lem, transition_sets}

module _ {W : Type 0} where
  set_current_in_use :
      (s : Nest W) (a d : ℕ)
      → IsValid s
      → a < s.used_slots
      → s.sim a ≡ some d
      → set_current_simulation (pos a) s ≡ some (none, switch_to a s)
  unfolding set_current_simulation slotindex_ok is_free
  set_current_in_use s a d v h e = ground (arith, v.configured, v.unlocked, e)

  set_current_bad :
      (s : Nest W) (a : ℕ)
      → s.used_slots ≤ a
      → set_current_simulation (pos a) s ≡ some (some false, s)
  unfolding set_current_simulation slotindex_ok
  set_current_bad s a h = ground arith

module _ {W G O : Type 0} (sims : Simulations W G O) where
  -- What the step before a transition makes of the world.
  abbrev updated : Machine W G → ℕ → W
  updated m c = sims.update_states m.global_states c (sims.trigger c m.nest.world)

  goes_to :
      (m : Machine W G) (c a : ℕ) (ret : Option Bool) (t : Nest W)
      → m.nest.current_sim ≡ some c
      → sims.next_state c (updated m c) ≡ pos (suc a)
      → set_current_simulation (pos a) (record m.nest { world = sims.reset c (updated m c) })
        ≡ some (ret, t)
      → machine_update sims m
        ≡ some (record { nest = t; active_state = a; global_states = sims.globals c (updated m c) })
  goes_to m c a ret t e r f =
      let m1 = record m { nest = record m.nest { world = updated m c } } in
      machine_update_lem sims m c e
      ∙ ap (λ x. transition sims x m1) r
      ∙ transition_sets sims m1 c a ret t e f

  -- Where the current simulation c of a valid nest asks, after its update, for a state a whose slot
  -- holds d: d becomes the current simulation and a the active state, the global states are those that
  -- c puts out, and c, not d, has been reset.
  machine_switches :
      (m : Machine W G) (c a d : ℕ)
      → IsValid m.nest
      → m.nest.current_sim ≡ some c
      → sims.next_state c (updated m c) ≡ pos (suc a)
      → a < m.nest.used_slots
      → m.nest.sim a ≡ some d
      → (m' : Machine W G) × ((machine_update sims m ≡ some m')
          × ((m'.nest.current_sim ≡ some d)
              × ((m'.active_state ≡ a)
                  × ((m'.global_states ≡ sims.globals c (updated m c))
                      × (m'.nest.world ≡ sims.reset c (updated m c))))))
  unfolding switch_to
  machine_switches m c a d v e r h f =
      let n1 = record m.nest { world = sims.reset c (updated m c) } in
      (
        record {
          nest = switch_to a n1;
          active_state = a;
          global_states = sims.globals c (updated m c);
        },
        (
          goes_to m c a none (switch_to a n1) e r
              (set_current_in_use n1 a d (world-IsValid m.nest (sims.reset c (updated m c)) v) h f),
          (f, (refl, (refl, refl))),
        ),
      )

  -- Where it asks for a state that has no slot, c stays the current simulation and is reset, but
  -- the active state, which the block puts out, is the one that was asked for.
  pub machine_loses :
      (m : Machine W G) (c a : ℕ)
      → m.nest.current_sim ≡ some c
      → sims.next_state c (updated m c) ≡ pos (suc a)
      → m.nest.used_slots ≤ a
      → (m' : Machine W G) × ((machine_update sims m ≡ some m')
          × ((m'.nest.current_sim ≡ some c)
              × ((m'.active_state ≡ a) × (m'.nest.world ≡ sims.reset c (updated m c)))))
  machine_loses m c a e r h =
      let n1 = record m.nest { world = sims.reset c (updated m c) } in
      (
        record { nest = n1; active_state = a; global_states = sims.globals c (updated m c) },
        (goes_to m c a (some false) n1 e r (set_current_bad n1 a h), (e, (refl, refl))),
      )

  -- The world after one step of simulation c.
  abbrev pub stepped : G → ℕ → W → W
  stepped g c w = sims.update_states g c (sims.calc_outputs g c (sims.trigger c w))

  whole_step_lem :
      (g : G) (s : Nest W) (c : ℕ)
      → s.current_sim ≡ some c
      → whole_step sims g s ≡ some (record s { world = stepped g c s.world })
  unfolding whole_step
  whole_step_lem g s c e =
      let w1 = sims.trigger c s.world in
      rw
        (
          on_current_lem sims.trigger s c e,
          on_current_lem (sims.calc_outputs g) (record s { world = w1 }) c e,
        )
        (on_current_lem (sims.update_states g) (record s { world = sims.calc_outputs g c w1 }) c e)

  case_step :
      (g : G) (selected : ℤ) (s t : Nest W) (r : Option Bool) (c : ℕ)
      → set_current_simulation selected s ≡ some (r, t)
      → t.current_sim ≡ some c
      → case_switch sims g selected s
        ≡ some (sims.outputs c (stepped g c t.world), record t { world = stepped g c t.world })
  unfolding case_switch
  case_step g selected s t r c f e =
      rw
        (
          f,
          whole_step_lem g t c e,
          from_current_lem sims.outputs (record t { world = stepped g c t.world }) c e,
        )
        refl

  -- The selected slot, counted from 0, is one that is used, and it holds simulation d.
  abbrev pub IsSelected : Nest W → ℤ → ℕ → Type 0
  IsSelected s selected d = (a : ℕ) × (selected ≡ pos a) × (a < s.used_slots) × (s.sim a ≡ some d)

  -- What a switch of the slots makes current: the selected simulation, or else the one that was.
  switched :
      (s : Nest W) (selected : ℤ) (c : ℕ)
      → IsValid s
      → s.current_sim ≡ some c
      → (r : Option Bool) × (t : Nest W) × (d : ℕ) × (set_current_simulation selected s
          ≡ some (r, t))
        × (t.current_sim ≡ some d)
        × (t.world ≡ s.world)
        × (t.sim ≡ s.sim)
        × (IsSelected s selected d ⊎ ((d ≡ c) × ((e : ℕ) → ¬ IsSelected s selected e)))
  unfolding set_current_simulation slotindex_ok is_free switch_to
  switched s (negsuc n) c v e = (some false, s, c, refl, e, refl, refl, inr (refl, λ e p. cc p.1))
  switched s (pos a) c v e = elim (dec_lt a s.used_slots) [
    | no k ↦ (
      some false,
      s,
      c,
      ground (arith, v.configured),
      e,
      refl,
      refl,
      inr (refl, λ x p. ground (arith, p.1, p.2)),
    )
    | yes k ↦ elim (Option-cases (s.sim a)) [
      | inl f ↦ (
        some false,
        s,
        c,
        ground (arith, v.configured, v.unlocked, f),
        e,
        refl,
        refl,
        inr (refl, λ x p. ground (arith, f, p.1, p.3)),
      )
      | inr (d, f) ↦ (
        none,
        switch_to a s,
        d,
        ground (arith, v.configured, v.unlocked, f),
        f,
        refl,
        refl,
        inl (a, refl, k, f),
      )
    ]
  ]

  valid_switch :
      (selected : ℤ) (s t : Nest W) (r : Option Bool)
      → IsValid s
      → set_current_simulation selected s ≡ some (r, t)
      → IsValid t
  unfolding Keeps
  valid_switch selected s t r v f =
      (subst (Keeps s) f (set_current_simulation-IsValid selected s v)).0

  -- Whatever number is selected, the switch between cases executes one simulation, and that alone: the
  -- one in the selected slot, where this slot is used and holds one, and else, for a negative number, a
  -- slot that does not exist and one that has been freed, the one that was executed before. The slots
  -- hold what they held, and they stay valid, so that the next selection can follow.
  pub case_switch_lem :
      (g : G) (s : Nest W) (selected : ℤ) (c : ℕ)
      → IsValid s
      → s.current_sim ≡ some c
      → (t : Nest W) × (d : ℕ) × (case_switch sims g selected s
          ≡ some (sims.outputs d (stepped g d s.world), t))
        × (t.current_sim ≡ some d)
        × (t.world ≡ stepped g d s.world)
        × (t.sim ≡ s.sim)
        × IsValid t
        × (IsSelected s selected d ⊎ ((d ≡ c) × ((e : ℕ) → ¬ IsSelected s selected e)))
  case_switch_lem g s selected c v e =
      let (r, t, d, f, current, world, slots, which) = switched s selected c v e in
      (
        record t { world = stepped g d t.world },
        d,
        subst
            (λ w.
              case_switch sims g selected s
              ≡ some (sims.outputs d (stepped g d w), record t { world = stepped g d t.world }))
            world (case_step g selected s t r d f current),
        current,
        ap (stepped g d) world,
        slots,
        world-IsValid t (stepped g d t.world) (valid_switch selected s t r v f),
        which,
      )

  -- The world after n rounds, the first with the counter at i.
  abbrev rounds : (ℕ → G) → ℕ → ℕ → ℕ → W → W
  rounds counter c zero i w = w
  rounds counter c (suc n) i w = rounds counter c n (suc i) (stepped (counter i) c w)

  for_loop_lem :
      (counter : ℕ → G) (n i : ℕ) (s : Nest W) (c : ℕ)
      → s.current_sim ≡ some c
      → for_loop sims counter n i s ≡ some (record s { world = rounds counter c n i s.world })
  unfolding for_loop
  for_loop_lem counter zero i s c e = refl
  for_loop_lem counter (suc n) i s c e =
      rw (whole_step_lem (counter i) s c e)
        (for_loop_lem counter n (suc i) (record s { world = stepped (counter i) c s.world }) c e)

  -- The for loop ends, with the outputs that the simulation has after n steps with the counter at
  -- 0, 1, ..., n - 1; where it is to reset the states it does so once, after the outputs are read.
  for_loop_outputs_lem :
      (counter : ℕ → G) (reset_states : Bool) (n : ℕ) (s : Nest W) (c : ℕ)
      → s.current_sim ≡ some c
      → for_loop_outputs sims counter reset_states n s ≡ (
          let w = rounds counter c n 0 s.world in
          some (sims.outputs c w, record s { world = if reset_states then sims.reset c w else w }))
  unfolding for_loop_outputs
  for_loop_outputs_lem counter true n s c e =
      let t = record s { world = rounds counter c n 0 s.world } in
      rw
        (
          for_loop_lem counter n 0 s c e,
          from_current_lem sims.outputs t c e,
          on_current_lem sims.reset t c e,
        )
        refl
  for_loop_outputs_lem counter false n s c e =
      let t = record s { world = rounds counter c n 0 s.world } in
      rw (for_loop_lem counter n 0 s c e, from_current_lem sims.outputs t c e) refl
