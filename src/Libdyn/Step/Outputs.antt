-- ===== src/Libdyn/Step/Outputs.antt =====
-- The outputs that a step computes.
use native.Mathlib.Decide.{ℕ_discrete}
use ortd.Prelude.{
  ℕ, ◌≡◌, ◌≢◌, refl, sym, ap, All, All-map, Distinct, ◌||◌, ◌∙◌, inl, inr, Bool, false, List, [],
  ◌∷◌, InList, here, there, if◌then◌else◌, arith, Bool-cases,
}
use ortd.Libdyn.Step.{StepFlag, calcoutputs, Running, exec, output_block, calc_outputs}

module _ {W : Type 0} (d_feedthrough : ℕ → Bool) (event_map : ℕ → List ℕ)
    (comp_func : StepFlag → ℕ → Bool × W → Bool × W) where
  -- Block c has nothing to compute.
  IsSettled : Running W → ℕ → Type 0
  IsSettled s c = d_feedthrough c ≡ false → s.needs_output_update c ≡ false

  output_block-other :
      (b c : ℕ) (s : Running W)
      → c ≢ b
      → (output_block d_feedthrough event_map comp_func b s).needs_output_update c
        ≡ s.needs_output_update c
  unfolding output_block exec
  output_block-other b c s ne = ground arith

  output_block_self :
      (b : ℕ) (s : Running W) → IsSettled (output_block d_feedthrough event_map comp_func b s) b
  unfolding output_block exec IsSettled
  output_block_self b s e = ground arith

  -- A block that is settled stays so, whatever other block is treated.
  output_block-IsSettled :
      (b c : ℕ) (s : Running W)
      → IsSettled s c
      → IsSettled (output_block d_feedthrough event_map comp_func b s) c
  unfolding IsSettled
  output_block-IsSettled b c s h = elim (ℕ_discrete c b) [
    | yes p ↦ rw p (output_block_self b s)
    | no p ↦ λ e. output_block-other b c s p ∙ h e
  ]

  keeps_IsSettled :
      (list : List ℕ) (c : ℕ) (s : Running W)
      → IsSettled s c
      → IsSettled (calc_outputs d_feedthrough event_map comp_func list s) c
  unfolding calc_outputs
  keeps_IsSettled [] c s h = h
  keeps_IsSettled (b ∷ list) c s h =
      keeps_IsSettled list c (output_block d_feedthrough event_map comp_func b s)
        (output_block-IsSettled b c s h)

  -- After the outputs are computed, no block of the execution list without feedthrough still needs an
  -- update, whatever the blocks do.
  calc_outputs-IsSettled :
      (list : List ℕ) (s : Running W) (c : ℕ)
      → InList c list
      → d_feedthrough c ≡ false
      → (calc_outputs d_feedthrough event_map comp_func list s).needs_output_update c ≡ false
  unfolding calc_outputs IsSettled
  calc_outputs-IsSettled [] s c m e = elim m [ ]
  calc_outputs-IsSettled (b ∷ list) s c (here p) e =
      keeps_IsSettled list c (output_block d_feedthrough event_map comp_func b s)
        (rw p (output_block_self b s)) e
  calc_outputs-IsSettled (b ∷ list) s c (there m) e =
      calc_outputs-IsSettled list (output_block d_feedthrough event_map comp_func b s) c m e

  -- The blocks that an output step calls: those with feedthrough, and those whose outputs need an
  -- update as the step begins.
  abbrev due : List ℕ → (ℕ → Bool) → List ℕ
  due [] needs = []
  due (b ∷ list) needs =
      let rest = due list needs in if d_feedthrough b || needs b then b ∷ rest else rest

  -- The calls of these blocks, one after the other.
  abbrev called : List ℕ → (ℕ → Bool) → W → W
  called [] needs w = w
  called (b ∷ list) needs w = called list needs (comp_func calcoutputs b (needs b, w)).1

  called-agree :
      (list : List ℕ) (n n' : ℕ → Bool) (w : W)
      → All (λ c. n c ≡ n' c) list
      → called (due list n) n w ≡ called (due list n') n' w
  called-agree [] n n' w h = refl
  called-agree (b ∷ list) n n' w h = elim (Bool-cases (d_feedthrough b || n' b)) [
    | inl e ↦
        rw (h.0, e)
          (ap (λ x. called (due list n) n (comp_func calcoutputs b (x, w)).1) h.0
            ∙ called-agree list n n' (comp_func calcoutputs b (n' b, w)).1 h.1)
    | inr e ↦ rw (h.0, e) (called-agree list n n' w h.1)
  ]

  -- One block: it is called if it is due, and otherwise nothing happens.
  output_block-world :
      (b : ℕ) (s : Running W)
      → (output_block d_feedthrough event_map comp_func b s).world ≡ (
          if d_feedthrough b || s.needs_output_update b
          then (comp_func calcoutputs b (s.needs_output_update b, s.world)).1
          else s.world)
  unfolding output_block exec
  output_block-world b s = ground arith

  untouched :
      (list : List ℕ) (b : ℕ) (s : Running W)
      → All (λ c. b ≢ c) list
      → All
          (λ c.
            (output_block d_feedthrough event_map comp_func b s).needs_output_update c
            ≡ s.needs_output_update c)
          list
  untouched list b s h = All-map list (λ c ne. output_block-other b c s (λ e. ne (sym e))) h

  calc_outputs-called :
      (list : List ℕ) (s : Running W)
      → Distinct list
      → (calc_outputs d_feedthrough event_map comp_func list s).world
        ≡ called (due list s.needs_output_update) s.needs_output_update s.world
  unfolding calc_outputs
  calc_outputs-called [] s h = refl
  calc_outputs-called (b ∷ list) s h =
      let s1 = output_block d_feedthrough event_map comp_func b s in
      calc_outputs-called list s1 h.1
      ∙ called-agree list s1.needs_output_update s.needs_output_update s1.world
          (untouched list b s h.0)
      ∙ elim (Bool-cases (d_feedthrough b || s.needs_output_update b)) [
        | inl e ↦ rw (output_block-world b s, e) refl
        | inr e ↦ rw (output_block-world b s, e) refl
      ]

  calc_outputs-other :
      (list : List ℕ) (c : ℕ) (s : Running W)
      → ¬ InList c list
      → (calc_outputs d_feedthrough event_map comp_func list s).needs_output_update c
        ≡ s.needs_output_update c
  unfolding calc_outputs
  calc_outputs-other [] c s h = refl
  calc_outputs-other (b ∷ list) c s h =
      calc_outputs-other list c (output_block d_feedthrough event_map comp_func b s)
        (λ m. h (there m))
      ∙ output_block-other b c s (λ e. h (here e))

  -- On a list where each block stands once, the computation of the outputs calls, in the order of the
  -- list, exactly the blocks with feedthrough and those whose outputs need an update as it begins,
  -- each once and with the mark it had then. After it no block of the list without feedthrough
  -- needs an update any more, and the marks of the blocks that are not on the list are kept.
  pub calc_outputs_lem :
      (list : List ℕ) (s : Running W)
      → Distinct list
      → ((calc_outputs d_feedthrough event_map comp_func list s).world
          ≡ called (due list s.needs_output_update) s.needs_output_update s.world)
        × ((c : ℕ)
            → InList c list
            → d_feedthrough c ≡ false
            → (calc_outputs d_feedthrough event_map comp_func list s).needs_output_update c ≡ false)
        × ((c : ℕ)
            → ¬ InList c list
            → (calc_outputs d_feedthrough event_map comp_func list s).needs_output_update c
              ≡ s.needs_output_update c)
  calc_outputs_lem list s h = (
    calc_outputs-called list s h,
    calc_outputs-IsSettled list s,
    λ c. calc_outputs-other list c s,
  )

  -- The blocks of a list whose outputs depend on their inputs.
  abbrev pub feeding : List ℕ → List ℕ
  feeding [] = []
  feeding (b ∷ list) = let rest = feeding list in if d_feedthrough b then b ∷ rest else rest

  output_block-settled :
      (b : ℕ) (s : Running W)
      → d_feedthrough b ≡ false
      → s.needs_output_update b ≡ false
      → output_block d_feedthrough event_map comp_func b s ≡ s
  unfolding output_block exec
  output_block-settled b s e h = rw (e, h) refl

  -- Where no block without feedthrough needs an update, as after an output step, the computation of the
  -- outputs is that of the blocks with feedthrough alone.
  pub calc_outputs-feeding :
      (list : List ℕ) (s : Running W)
      → ((c : ℕ) → InList c list → d_feedthrough c ≡ false → s.needs_output_update c ≡ false)
      → calc_outputs d_feedthrough event_map comp_func list s
        ≡ calc_outputs d_feedthrough event_map comp_func (feeding list) s
  unfolding calc_outputs IsSettled
  calc_outputs-feeding [] s h = refl
  calc_outputs-feeding (b ∷ list) s h = elim (Bool-cases (d_feedthrough b)) [
    | inl p ↦ rw p (
        calc_outputs-feeding list (output_block d_feedthrough event_map comp_func b s)
          (λ c m. output_block-IsSettled b c s (h c (there m))))
    | inr p ↦
        rw (p, output_block-settled b s p (h b (here refl) p))
          (calc_outputs-feeding list s (λ c m. h c (there m)))
  ]
