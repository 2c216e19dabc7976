-- ===== src/Libdyn/Init/Undo.antt =====
-- What the loops of `libdyn_simulation_callinitflag` do to the blocks and to the world.
use ortd.Prelude.{
  ℕ, zero, suc, ◌≤◌, ◌<◌, ◌≡◌, refl, sym, ap, ◌∙◌, inl, inr, Bool, true, false, ◌&&◌, Option, arith,
  Bool-cases, ℕ_discrete,
}
use ortd.Libdyn.Init.{
  Flag, Simulation, Loop, finished, aborted, call, has_destructor, init_block, next_block,
  init_blocks, undo_blocks,
}
use ortd.Libdyn.Init.Calls.{calls, every, run, run_step}

module _ {W : Type 0} (comp_func : Flag → ℕ → W → Bool × W) where
  -- `t` is `s` after calls for the first `n` blocks that leave `v` in `block_initialised`.
  pub record Visited (flag : Flag) (v : Bool) (n m : ℕ) (s t : Simulation W) : Type 0 where
    pub num_blocks : t.num_blocks ≡ s.num_blocks
    pub blocks_initialised : t.blocks_initialised ≡ s.blocks_initialised
    pub world : t.world ≡ run comp_func (calls flag every m) s.world
    pub visited : (c : ℕ) → c < n → t.block_initialised c ≡ v
    pub others : (c : ℕ) → n ≤ c → t.block_initialised c ≡ s.block_initialised c

  -- The call of block c with a flag, when the blocks 0 to c - 1 have got it, returns this.
  abbrev pub result_at : Flag → W → ℕ → Bool
  result_at flag w c = (comp_func flag c (run comp_func (calls flag every c) w)).0

  abbrev pub NoErrors : Flag → ℕ → W → Type 0
  NoErrors flag n w = (c : ℕ) → c < n → result_at flag w c ≡ false

  -- The loop over the first `n` blocks: all called, or all up to the first error that counts.
  unfoldable pub LoopDid : Flag → Option Flag → ℕ → Simulation W → Loop W → Type 0
  LoopDid flag dtor n s (finished t) =
      Visited flag true n n s t × (has_destructor dtor ≡ true → NoErrors flag n s.world)
  LoopDid flag dtor n s (aborted p t) =
      (p < n)
      × (Visited flag true p (suc p) s t
          × ((result_at flag s.world p ≡ true)
              × NoErrors flag p s.world
              × (has_destructor dtor ≡ true)))

  -- One more block.
  visit :
      (flag : Flag) (v : Bool) (b : ℕ) (s t : Simulation W)
      → Visited flag v b b s t
      → (comp_func flag b t.world).1 ≡ run comp_func (calls flag every (suc b)) s.world
  visit flag v b s t h =
      ap (λ w. (comp_func flag b w).1) h.world ∙ sym (run_step comp_func flag every b s.world refl)

  and_parts : (a b : Bool) → (a && b) ≡ true → (a ≡ true) × (b ≡ true)
  and_parts true b e = (refl, e)
  and_parts false b e = cc

  and_false : (a b : Bool) → (a && b) ≡ false → b ≡ true → a ≡ false
  and_false true b e k = cc
  and_false false b e k = refl

  one_more :
      (flag : Flag) (b : ℕ) (w : W)
      → NoErrors flag b w
      → result_at flag w b ≡ false
      → NoErrors flag (suc b) w
  one_more flag b w h e c k = elim (ℕ_discrete c b) [ yes p ↦ rw p e | no p ↦ h c (omega arith) ]

  init_block_did :
      (flag : Flag) (dtor : Option Flag) (b : ℕ) (s t : Simulation W)
      → Visited flag true b b s t
      → (has_destructor dtor ≡ true → NoErrors flag b s.world)
      → LoopDid flag dtor (suc b) s (init_block comp_func flag dtor b t)
  unfolding init_block call LoopDid
  init_block_did flag dtor b s t v none_before =
      let err = (comp_func flag b t.world).0 in
      elim (Bool-cases (err && has_destructor dtor)) [
        | inl e ↦ rw e (
          omega arith,
          (
            record {
              num_blocks = v.num_blocks;
              blocks_initialised = v.blocks_initialised;
              world = visit flag true b s t v;
              visited = v.visited;
              others = v.others;
            },
            (
              ap (λ w. (comp_func flag b w).0) (sym v.world)
                  ∙ (and_parts err (has_destructor dtor) e).0,
              none_before (and_parts err (has_destructor dtor) e).1,
              (and_parts err (has_destructor dtor) e).1,
            ),
          ),
        )
        | inr e ↦ rw e (
          record {
            num_blocks = v.num_blocks;
            blocks_initialised = v.blocks_initialised;
            world = visit flag true b s t v;
            visited = λ c k. ground (arith, v.visited c);
            others = λ c k. ground (arith, v.others c (omega arith));
          },
          λ d. one_more flag b s.world (none_before d) (
              ap (λ w. (comp_func flag b w).0) (sym v.world)
              ∙ and_false err (has_destructor dtor) e d),
        )
      ]

  next_block_did :
      (flag : Flag) (dtor : Option Flag) (b : ℕ) (s : Simulation W) (l : Loop W)
      → LoopDid flag dtor b s l
      → LoopDid flag dtor (suc b) s (next_block comp_func flag dtor b l)
  unfolding next_block LoopDid
  next_block_did flag dtor b s (finished t) (v, h) = init_block_did flag dtor b s t v h
  next_block_did flag dtor b s (aborted p t) (h, i) = (omega arith, i)

  pub init_blocks-LoopDid :
      (flag : Flag) (dtor : Option Flag) (n : ℕ) (s : Simulation W)
      → LoopDid flag dtor n s (init_blocks comp_func flag dtor n s)
  unfolding init_blocks LoopDid calls run
  init_blocks-LoopDid flag dtor zero s = (
    record {
      num_blocks = refl;
      blocks_initialised = refl;
      world = refl;
      visited = λ c k. elim k [ ];
      others = λ c k. refl;
    },
    λ d c k. elim k [ ],
  )
  init_blocks-LoopDid flag dtor (suc b) s =
      next_block_did flag dtor b s (init_blocks comp_func flag dtor b s)
        (init_blocks-LoopDid flag dtor b s)

  pub undo_blocks-Visited :
      (d : Flag) (n : ℕ) (s : Simulation W) → Visited d false n n s (undo_blocks comp_func d n s)
  unfolding undo_blocks call calls run
  undo_blocks-Visited d zero s = record {
    num_blocks = refl;
    blocks_initialised = refl;
    world = refl;
    visited = λ c k. elim k [ ];
    others = λ c k. refl;
  }
  undo_blocks-Visited d (suc b) s =
      let v = undo_blocks-Visited d b s in
      record {
        num_blocks = v.num_blocks;
        blocks_initialised = v.blocks_initialised;
        world = visit d false b s (undo_blocks comp_func d b s) v;
        visited = λ c k. ground (arith, v.visited c);
        others = λ c k. ground (arith, v.others c (omega arith));
      }
