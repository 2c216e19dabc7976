-- ===== src/Libdyn/Init/Callinit.antt =====
-- `libdyn_simulation_callinitflag` as a whole.
use ortd.Prelude.{
  ℕ, suc, ◌≤◌, ◌<◌, ◌≡◌, refl, sym, ap, ◌∙◌, Bool, true, false, Option, none, some, ◌++◌,
}
use ortd.Libdyn.Init.{
  Flag, Simulation, Loop, finished, aborted, init_blocks, has_destructor, undo_with, conclude,
  callinitflag,
}
use ortd.Libdyn.Init.Calls.{calls, every, run, run-append}
use ortd.Libdyn.Init.Undo.{LoopDid, NoErrors, result_at, init_blocks-LoopDid, undo_blocks-Visited}

module _ {W : Type 0} (comp_func : Flag → ℕ → W → Bool × W) where
  -- Every block was called once, in the order of the list, and is marked as initialised; where errors
  -- count, none returned one.
  pub record Succeeded (flag : Flag) (dtor : Option Flag) (s t : Simulation W) : Type 0 where
    pub num_blocks : t.num_blocks ≡ s.num_blocks
    pub blocks_initialised : t.blocks_initialised ≡ true
    pub world : t.world ≡ run comp_func (calls flag every s.num_blocks) s.world
    pub set : (c : ℕ) → c < s.num_blocks → t.block_initialised c ≡ true
    pub no_errors : has_destructor dtor ≡ true → NoErrors comp_func flag s.num_blocks s.world

  -- Block `abort_at` is the first one whose call returned an error: no block after it was called, the blocks before
  -- it got the flag `d` in the same order and are no longer marked, the others keep their mark.
  pub record Failed (flag d : Flag) (s t : Simulation W) : Type 0 where
    pub abort_at : ℕ
    pub abort_lt : abort_at < s.num_blocks
    pub error : result_at comp_func flag s.world abort_at ≡ true
    pub first : NoErrors comp_func flag abort_at s.world
    pub num_blocks : t.num_blocks ≡ s.num_blocks
    pub blocks_initialised : t.blocks_initialised ≡ s.blocks_initialised
    pub world :
        t.world ≡ run comp_func (calls flag every (suc abort_at) ++ calls d every abort_at) s.world
    pub cleared : (c : ℕ) → c < abort_at → t.block_initialised c ≡ false
    pub kept : (c : ℕ) → abort_at ≤ c → t.block_initialised c ≡ s.block_initialised c

  unfoldable pub CallinitDid : Flag → Option Flag → Simulation W → Bool × Simulation W → Type 0
  CallinitDid flag dtor s (true, t) = Succeeded flag dtor s t
  CallinitDid flag none s (false, t) = ⊥
  CallinitDid flag (some d) s (false, t) = Failed flag d s t

  conclude_did :
      (flag : Flag) (dtor : Option Flag) (s : Simulation W) (l : Loop W)
      → LoopDid comp_func flag dtor s.num_blocks s l
      → CallinitDid flag dtor s (conclude comp_func dtor l)
  unfolding conclude undo_with LoopDid has_destructor CallinitDid
  conclude_did flag dtor s (finished t) (v, h) = record {
    num_blocks = v.num_blocks;
    blocks_initialised = refl;
    world = v.world;
    set = v.visited;
    no_errors = h;
  }
  conclude_did flag none s (aborted p t) (h, (v, (e, f, i))) = cc
  conclude_did flag (some d) s (aborted p t) (h, (v, (e, f, i))) =
      let u = undo_blocks-Visited comp_func d p t in
      record {
        abort_at = p;
        abort_lt = h;
        error = e;
        first = f;
        num_blocks = u.num_blocks ∙ v.num_blocks;
        blocks_initialised = u.blocks_initialised ∙ v.blocks_initialised;
        world =
            u.world
            ∙ ap (run comp_func (calls d every p)) v.world
            ∙ sym (run-append comp_func (calls flag every (suc p)) (calls d every p) s.world);
        cleared = u.visited;
        kept = λ c k. u.others c k ∙ v.others c k;
      }

  -- One flag for all blocks. Either every block got it once, in the order of the list, all are marked,
  -- and none returned an error where there is a destructor flag; or the first block p that returned
  -- an error is the last one that got it, the blocks
  -- 0 to p - 1 then got the destructor flag in the same order and lost their mark, and the rest is
  -- as before. Without a destructor flag the first is always the case.
  pub callinitflag_lem :
      (flag : Flag) (dtor : Option Flag) (s : Simulation W)
      → CallinitDid flag dtor s (callinitflag comp_func flag dtor s)
  unfolding callinitflag
  callinitflag_lem flag dtor s =
      conclude_did flag dtor s (init_blocks comp_func flag dtor s.num_blocks s)
        (init_blocks-LoopDid comp_func flag dtor s.num_blocks s)
