-- ===== src/Libdyn/Init/Delete.antt =====
-- `libdyn_del_simulation` as a sequence of calls, and the whole life of a simulation.
use ortd.Prelude.{
  ℕ, zero, suc, ◌≤◌, ◌<◌, ◌≡◌, refl, sym, ap, ◌∙◌, inl, inr, Bool, false, arith, Bool-cases,
}
use ortd.Libdyn.Init.{
  Flag, destructor, postdestructor, Simulation, call, destruct_blocks, postdestruct_blocks,
  del_simulation,
}
use ortd.Libdyn.Init.Calls.{deletion, calls, calls-cong, run, run-append, run_step, run_skip}

module _ {W : Type 0} (comp_func : Flag → ℕ → W → Bool × W) where
  record Destructed (n : ℕ) (s t : Simulation W) : Type 0 where
    num_blocks : t.num_blocks ≡ s.num_blocks
    world : t.world ≡ run comp_func (calls destructor s.block_initialised n) s.world
    kept : (c : ℕ) → t.block_initialised c ≡ s.block_initialised c

  destruct_blocks_lem : (n : ℕ) (s : Simulation W) → Destructed n s (destruct_blocks comp_func n s)
  unfolding destruct_blocks call calls run
  destruct_blocks_lem zero s = record { num_blocks = refl; world = refl; kept = λ c. refl }
  destruct_blocks_lem (suc b) s =
      let ih = destruct_blocks_lem b s in
      elim (Bool-cases (s.block_initialised b)) [
        | inl e ↦
            rw (ih.kept b, e)
              (record {
                num_blocks = ih.num_blocks;
                world =
                    ap (λ w. (comp_func destructor b w).1) ih.world
                    ∙ sym (run_step comp_func destructor s.block_initialised b s.world e);
                kept = ih.kept;
              })
        | inr e ↦
            rw (ih.kept b, e)
              (record {
                num_blocks = ih.num_blocks;
                world =
                    ih.world ∙ sym (run_skip comp_func destructor s.block_initialised b s.world e);
                kept = ih.kept;
              })
      ]

  record Postdestructed (n : ℕ) (s t : Simulation W) : Type 0 where
    num_blocks : t.num_blocks ≡ s.num_blocks
    world : t.world ≡ run comp_func (calls postdestructor s.block_initialised n) s.world
    cleared : (c : ℕ) → c < n → t.block_initialised c ≡ false
    kept : (c : ℕ) → n ≤ c → t.block_initialised c ≡ s.block_initialised c

  postdestruct_blocks_lem :
      (n : ℕ) (s : Simulation W) → Postdestructed n s (postdestruct_blocks comp_func n s)
  unfolding postdestruct_blocks call calls run
  postdestruct_blocks_lem zero s = record {
    num_blocks = refl;
    world = refl;
    cleared = λ c k. elim k [ ];
    kept = λ c k. refl;
  }
  postdestruct_blocks_lem (suc b) s =
      let ih = postdestruct_blocks_lem b s in
      elim (Bool-cases (s.block_initialised b)) [
        | inl e ↦
            rw (ih.kept b (omega arith), e)
              (record {
                num_blocks = ih.num_blocks;
                world =
                    ap (λ w. (comp_func postdestructor b w).1) ih.world
                    ∙ sym (run_step comp_func postdestructor s.block_initialised b s.world e);
                cleared = λ c k. ground (arith, ih.cleared c);
                kept = λ c k. ground (arith, ih.kept c (omega arith));
              })
        | inr e ↦
            rw (ih.kept b (omega arith), e)
              (record {
                num_blocks = ih.num_blocks;
                world =
                    ih.world
                    ∙ sym (run_skip comp_func postdestructor s.block_initialised b s.world e);
                cleared = λ c k. ground (arith, ih.cleared c);
                kept = λ c k. ground (arith, ih.kept c (omega arith));
              })
      ]

  -- Deleting a simulation calls, for the blocks that are marked as initialised and no others, first
  -- all destructors and then all late destructors, each in the order of the list, and leaves no
  -- block marked.
  pub del_simulation_lem :
      (s : Simulation W)
      → ((del_simulation comp_func s).world
          ≡ run comp_func (deletion s.num_blocks s.block_initialised) s.world)
        × ((c : ℕ) → c < s.num_blocks → (del_simulation comp_func s).block_initialised c ≡ false)
  unfolding del_simulation deletion
  del_simulation_lem s =
      let n = s.num_blocks in
      let d = destruct_blocks_lem n s in
      let t = destruct_blocks comp_func n s in
      let q = postdestruct_blocks_lem n t in
      (
        q.world
            ∙ ap (λ cs. run comp_func cs t.world)
                (calls-cong postdestructor t.block_initialised s.block_initialised n
                  (λ b k. d.kept b))
            ∙ ap (run comp_func (calls postdestructor s.block_initialised n)) d.world
            ∙ sym (
                run-append comp_func (calls destructor s.block_initialised n)
                  (calls postdestructor s.block_initialised n) s.world),
        q.cleared,
      )
