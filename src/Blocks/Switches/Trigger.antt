-- ===== src/Blocks/Switches/Trigger.antt =====
-- The switch with N inputs never leaves them.
use ortd.Prelude.{
  ℕ, suc, ◌-◌, ◌<◌, ◌^◌, ltb, ◌≡◌, refl, Bool-cases, true, some, List, [], ◌∷◌, length, inl, inr,
  arith, ℤ, pos, pos_part, ◌-ℤ◌, All,
}
use ortd.Prelude.Copy.{get_elem?-lt}
use ortd.Blocks.{Floating}
use ortd.Blocks.Switches.{
  to_int32, trig_switch_init, trig_switch_state, trig_switch_outputs, trig_switch_run,
}

-- The state is the place of an input.
abbrev pub IsSwitched : ℕ → ℤ → Type 0
IsSwitched n state = (i : ℕ) × (state ≡ pos i) × (i < n)

trig_switch_init-IsSwitched :
    (d : Floating) (n : ℕ) (initial_state state : ℤ)
    → trig_switch_init d n initial_state ≡ some state
    → IsSwitched n state
unfolding trig_switch_init ◌-ℤ◌
trig_switch_init-IsSwitched d n initial_state state e =
    (pos_part initial_state - 1, ground arith, ground arith)

module _ (d : Floating) where
  open d use {F, above_half, round}

  -- An event above 0.5 is rounded to a positive number in the range of `int`.
  abbrev IsEvent : F → Type 0
  IsEvent event = above_half event ≡ true → (e : ℕ) × (round event ≡ pos (suc e)) × (suc e < 2 ^ 31)

  trig_switch_state-IsSwitched :
      (n : ℕ) (event : F) (state : ℤ)
      → IsEvent event
      → IsSwitched n state
      → (state' : ℤ) × (trig_switch_state d n event state ≡ some state') × IsSwitched n state'
  unfolding trig_switch_state to_int32 ◌-ℤ◌
  trig_switch_state-IsSwitched n event state v s = elim (Bool-cases (above_half event)) [
    | inr h ↦ (state, rw h refl, s)
    | inl h ↦
        let (e, r, small) = v h in
        elim (Bool-cases (ltb n (suc e))) [
          | inl k ↦ (state, ground (arith, r), s)
          | inr k ↦ (pos e, ground (arith, r), (e, refl, ground arith))
        ]
  ]

  trig_switch_outputs-IsSwitched :
      (n : ℕ) (event : F) (inputs : List F) (state : ℤ)
      → length inputs ≡ n
      → IsEvent event
      → IsSwitched n state
      → (x : F) × (state' : ℤ) × (trig_switch_outputs d n event inputs state ≡ some (x, state'))
        × IsSwitched n state'
  unfolding trig_switch_outputs
  trig_switch_outputs-IsSwitched n event inputs state h v s =
      let (state', r, (i, e, k)) = trig_switch_state-IsSwitched n event state v s in
      let (x, g) = get_elem?-lt inputs i (omega arith) in (x, state', rw (r, e, g) refl, (i, e, k))

  run_lem :
      (n : ℕ) (steps : List (F × List F)) (state : ℤ)
      → All (λ s. (length (s.1) ≡ n) × IsEvent s.0) steps
      → IsSwitched n state
      → (outs : List F) × (state' : ℤ) × (trig_switch_run d n steps state ≡ some (outs, state'))
        × (length outs ≡ length steps)
        × IsSwitched n state'
  unfolding trig_switch_run
  run_lem n [] state h s = ([], state, refl, refl, s)
  run_lem n ((event, inputs) ∷ steps) state h s =
      let (x, state1, o, s1) = trig_switch_outputs-IsSwitched n event inputs state h.0.0 h.0.1 s in
      let (outs, state2, r, l, s2) = run_lem n steps state1 h.1 s1 in
      (x ∷ outs, state2, rw (o, r) refl, omega (arith, l), s2)

  -- A switch with n inputs that is initialised computes an output in each step without an access
  -- outside of its inputs, and its state is always the place of one of them, where each event above 0.5
  -- is rounded to a positive number in the range of `int`, which may be larger than n.
  pub trig_switch_run-init :
      (n : ℕ) (initial_state state : ℤ) (steps : List (F × List F))
      → All (λ s. (length (s.1) ≡ n) × IsEvent s.0) steps
      → trig_switch_init d n initial_state ≡ some state
      → (outs : List F) × (state' : ℤ) × (trig_switch_run d n steps state ≡ some (outs, state'))
        × (length outs ≡ length steps)
        × IsSwitched n state'
  trig_switch_run-init n initial_state state steps h e =
      run_lem n steps state h (trig_switch_init-IsSwitched d n initial_state state e)
