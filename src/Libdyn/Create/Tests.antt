-- ===== src/Libdyn/Create/Tests.antt =====
-- A block with states that is created and connected to itself: runs, and the theorems at them.
use ortd.Prelude.{◌≡◌, refl, Bool, true, false, Option, none, some, List, [], ◌∷◌, arith}
use ortd.Libdyn.{Network}
use ortd.Libdyn.Connect.{link}
use ortd.Libdyn.Create.{
  NewBlock, ConfigCall, block, input, output, config_block, config_block_output, configure_block,
  alloc_outputs, new_block, Simulation, no_block, new_simulation, counted,
}
use ortd.Libdyn.Create.Cache.{IsLaidOut, alloc_outputs_lem}
use ortd.Libdyn.Create.Built.{Built}
use ortd.Libdyn.Schedule.{Schedule}

-- What `compu_func_delay` asks for: one input and one output of one double, no feedthrough.
abbrev delay_calls : List ConfigCall
delay_calls = block true 1 1 false ∷ input 0 1 257 ∷ output 0 1 257 false ∷ []

-- The simulation after a creation.
abbrev result_of : Option (Bool × Simulation) → Simulation
result_of none = new_simulation
result_of (some (b, s)) = s

abbrev with_delay : Simulation
with_delay = result_of (new_block no_block delay_calls false new_simulation)

abbrev looped : Network
looped = link with_delay.net 0 0 0 0

created : new_block no_block delay_calls false new_simulation ≡ some (true, with_delay)
unfolding new_block new_simulation
created = refl

listed : with_delay.execution_sup_list ≡ 0 ∷ []
unfolding new_block new_simulation
listed = refl

-- An output that is not configured, and a computational function that returns -1.
refused :
    new_block no_block (block true 1 0 false ∷ []) false new_simulation
    ≡ some (false, counted new_simulation)
unfolding new_block new_simulation
refused = refl

failed : new_block no_block delay_calls true new_simulation ≡ some (false, counted new_simulation)
unfolding new_block new_simulation
failed = refl

-- An output of three unsigned 16-bit numbers gets no memory.
uint16_has_no_size :
    ((config_block_output 0 3 9 true (config_block true 1 0 false no_block)).1.outlist 0).datasize
    ≡ 0
unfolding config_block_output config_block
uint16_has_no_size = refl

abbrev stale : Schedule
stale = record { remaining = λ b. 7; available = λ b i. true; executed = λ b. true; exec = [] }

abbrev block_of : Option NewBlock → NewBlock
block_of none = no_block
block_of (some b) = b

abbrev two_outputs : NewBlock
two_outputs = block_of (
    configure_block (block true 2 0 false ∷ output 0 3 257 false ∷ output 1 2 2 false ∷ [])
      no_block)

alloc_outputs_example :
    (b : NewBlock) × (alloc_outputs two_outputs ≡ some b) × IsLaidOut two_outputs b
unfolding configure_block
alloc_outputs_example = alloc_outputs_lem two_outputs refl (omega arith)
