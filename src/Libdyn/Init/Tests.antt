-- ===== src/Libdyn/Init/Tests.antt =====
-- A simulation of three blocks whose computational functions record their calls; block 1 returns an
-- error to one flag.
use ortd.Prelude.{
  ℕ, ◌<◌, ◌≡◌, refl, Bool, true, false, ◌&&◌, some, List, [], ◌∷◌, ◌++◌, ◌==◌, leb, arith,
}
use ortd.Libdyn.Init.{
  Flag, preinit, init, postinit, destructor, postdestructor, Simulation, has_destructor, call,
  init_block, next_block, init_blocks, undo_blocks, undo_with, conclude, callinitflag,
  simulation_init, destruct_blocks, postdestruct_blocks, del_simulation,
}
use ortd.Libdyn.Init.Calls.{deletion, calls, every, run}
use ortd.Libdyn.Init.Callinit.{CallinitDid, callinitflag_lem}
use ortd.Libdyn.Init.Life.{simulation_init-deletion, preinit_error, init_error}

abbrev same : Flag → Flag → Bool
same preinit preinit = true
same init init = true
same postinit postinit = true
same destructor destructor = true
same postdestructor postdestructor = true
same f g = false

abbrev record_calls : Flag → Flag → ℕ → List (Flag × ℕ) → Bool × List (Flag × ℕ)
record_calls bad flag b w = (same bad flag && (b == 1), w ++ (flag, b) ∷ [])

abbrev three_blocks : Simulation (List (Flag × ℕ))
three_blocks = record {
  num_blocks = 3;
  block_initialised = λ b. false;
  blocks_initialised = false;
  world = [];
}

callinitflag_run :
    (callinitflag (record_calls init) init (some destructor) three_blocks).1.world
    ≡ (init, 0) ∷ (init, 1) ∷ (destructor, 0) ∷ []
unfolding callinitflag conclude undo_with init_blocks next_block init_block undo_blocks
    has_destructor call
callinitflag_run = refl

callinitflag_example :
    CallinitDid
      (record_calls init)
      init
      (some destructor)
      three_blocks
      (callinitflag (record_calls init) init (some destructor) three_blocks)
callinitflag_example = callinitflag_lem (record_calls init) init (some destructor) three_blocks

simulation_init-deletion_example :
    (del_simulation
      (record_calls postinit)
      (simulation_init (record_calls postinit) three_blocks).1).world
    ≡ run
        (record_calls postinit)
        (((calls preinit every 3 ++ calls init every 3) ++ calls postinit every 3)
          ++ deletion 3 every)
        []
unfolding simulation_init callinitflag conclude undo_with init_blocks next_block init_block
    undo_blocks has_destructor call
simulation_init-deletion_example =
    simulation_init-deletion (record_calls postinit) three_blocks refl

none_below_one : (c : ℕ) → c < 1 → (c == 1) ≡ false
none_below_one c h = ground arith

preinit_error_example :
    (del_simulation
      (record_calls preinit)
      (simulation_init (record_calls preinit) three_blocks).1).world
    ≡ run (record_calls preinit) (calls preinit every 2 ++ calls postdestructor every 1) []
preinit_error_example =
    preinit_error (record_calls preinit) three_blocks 1 (λ b k. refl)
      (omega arith, none_below_one, refl)

init_error_example :
    (del_simulation (record_calls init) (simulation_init (record_calls init) three_blocks).1).world
    ≡ run
        (record_calls init)
        ((calls preinit every 3 ++ (calls init every 2 ++ calls destructor every 1))
          ++ deletion 3 (leb 1))
        []
init_error_example =
    init_error (record_calls init) three_blocks 1 (λ b k. refl) (omega arith, none_below_one, refl)

init_error_run :
    (del_simulation (record_calls init) (simulation_init (record_calls init) three_blocks).1).world
    ≡ (preinit, 0)
      ∷ (preinit, 1)
      ∷ (preinit, 2)
      ∷ (init, 0)
      ∷ (init, 1)
      ∷ (destructor, 0)
      ∷ (destructor, 1)
      ∷ (destructor, 2)
      ∷ (postdestructor, 1)
      ∷ (postdestructor, 2)
      ∷ []
unfolding del_simulation destruct_blocks postdestruct_blocks simulation_init callinitflag conclude
    undo_with init_blocks next_block init_block undo_blocks has_destructor call
init_error_run = refl
