-- ===== src/Libdyn/Init.antt =====
-- libdyn.c: `libdyn_simulation_init`, `libdyn_simulation_callinitflag` with its way back after an
-- error, and the calls of `libdyn_del_simulation`. The computational functions of the blocks are a
-- parameter: a call gives whether the result is -1, and what it makes of the world.
pub mod Calls
pub mod Callinit
pub mod Delete
mod Life
pub mod Undo
mod Tests
use ortd.Prelude.{
  ℕ, zero, suc, Bool, true, false, not, ◌&&◌, Option, none, some, List, [], ◌∷◌, update,
  if◌then◌else◌,
}

-- The `COMPF_FLAG_` values that are passed here.
pub data Flag : Type 0 where
  preinit init postinit destructor postdestructor : Flag

-- A simulation with `num_blocks` blocks: `block_initialised` of each, `blocks_initialised`, and
-- what the computational functions work on.
pub record Simulation (W : Type 0) : Type 0 where
  pub num_blocks : ℕ
  pub block_initialised : ℕ → Bool
  pub blocks_initialised : Bool
  pub world : W

-- How the loop over the blocks ends: at its end, or at the block where an error was returned.
pub data Loop (W : Type 0) : Type 0 where
  finished : Simulation W → Loop W
  aborted : ℕ → Simulation W → Loop W

pub has_destructor : Option Flag → Bool
has_destructor none = false
has_destructor (some d) = true

module _ {W : Type 0} (comp_func : Flag → ℕ → W → Bool × W) where
  pub call : Flag → ℕ → Simulation W → Bool × Simulation W
  call flag b s = let (err, w) = comp_func flag b s.world in (err, record s { world = w })

  -- The body of the loop for block `b`.
  pub init_block : Flag → Option Flag → ℕ → Simulation W → Loop W
  unfolding has_destructor
  init_block flag dtor b s =
      let (err, s') = call flag b s in
      if err && has_destructor dtor
      then aborted b s'
      else finished (record s' { block_initialised = update s'.block_initialised b true })

  -- On to the next block, unless the loop is left already.
  pub next_block : Flag → Option Flag → ℕ → Loop W → Loop W
  next_block flag dtor b (finished s) = init_block flag dtor b s
  next_block flag dtor b (aborted p s) = aborted p s

  -- The blocks 0 to n - 1, in this order, up to the first error.
  pub init_blocks : Flag → Option Flag → ℕ → Simulation W → Loop W
  init_blocks flag dtor zero s = finished s
  init_blocks flag dtor (suc b) s = next_block flag dtor b (init_blocks flag dtor b s)

  -- `undo_everything`: the blocks 0 to n - 1.
  pub undo_blocks : Flag → ℕ → Simulation W → Simulation W
  undo_blocks dtor zero s = s
  undo_blocks dtor (suc b) s =
      let s' = (call dtor b (undo_blocks dtor b s)).1 in
      record s' { block_initialised = update s'.block_initialised b false }

  undo_with : Option Flag → ℕ → Simulation W → Simulation W
  undo_with none p s = s
  undo_with (some d) p s = undo_blocks d p s

  -- What follows the loop; true is the result 0, false is -1.
  pub conclude : Option Flag → Loop W → Bool × Simulation W
  unfolding undo_with
  conclude dtor (finished s) = (true, record s { blocks_initialised = true })
  conclude dtor (aborted p s) = (false, undo_with dtor p s)

  -- `libdyn_simulation_callinitflag`
  pub callinitflag : Flag → Option Flag → Simulation W → Bool × Simulation W
  callinitflag flag dtor s = conclude dtor (init_blocks flag dtor s.num_blocks s)

  -- `libdyn_simulation_init`
  pub simulation_init : Simulation W → Bool × Simulation W
  simulation_init s =
      let (ok_pre, s1) = callinitflag preinit (some postdestructor) s in
      let (ok_init, s2) = callinitflag init (some destructor) s1 in
      if not ok_pre
      then (false, s1)
      else if not ok_init
      then (false, s2)
      else (true, (callinitflag postinit none s2).1)

  -- The first loop of `libdyn_del_simulation`.
  pub destruct_blocks : ℕ → Simulation W → Simulation W
  destruct_blocks zero s = s
  destruct_blocks (suc b) s =
      let s' = destruct_blocks b s in
      if s'.block_initialised b then (call destructor b s').1 else s'

  -- Its second loop.
  pub postdestruct_blocks : ℕ → Simulation W → Simulation W
  postdestruct_blocks zero s = s
  postdestruct_blocks (suc b) s =
      let s' = postdestruct_blocks b s in
      let s'' = if s'.block_initialised b then (call postdestructor b s').1 else s' in
      record s'' { block_initialised = update s''.block_initialised b false }

  pub del_simulation : Simulation W → Simulation W
  del_simulation s = postdestruct_blocks s.num_blocks (destruct_blocks s.num_blocks s)
