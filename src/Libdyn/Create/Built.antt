-- ===== src/Libdyn/Create/Built.antt =====
-- Networks that are built by creating and connecting blocks: they are wired, so that the execution
-- order of every such network can be computed.
use ortd.Prelude.{ℕ, suc, ◌<◌, ◌≤◌, ◌≡◌, Bool, true, some, List, [], ◌∷◌, All, length, word}
use ortd.Libdyn.{Network, undef}
use ortd.Libdyn.Wiring.{IsWired}
use ortd.Libdyn.Connect.{connect, connected, connect_external, attached}
use ortd.Libdyn.Create.{NewBlock, ConfigCall, block, new_block, Simulation, new_simulation}
use ortd.Libdyn.Create.Insert.{Unused}
use ortd.Libdyn.Schedule.{Schedule}
use ortd.Libdyn.Create.Fresh.{IsSmall}

-- A simulation after a number of accepted operations: blocks are created, and their ports are
-- connected with one another or with memory of the caller.
pub data Built : ℕ → Simulation → Type 0 where
  empty : Built 0 new_simulation
  creates :
      {n : ℕ} {s s' : Simulation} (fresh : NewBlock) (dynamic : Bool) (nout nin : ℕ) (own : Bool)
      (calls : List ConfigCall) (failed : Bool)
      → Built n s
      → All IsSmall (block dynamic nout nin own ∷ calls)
      → new_block fresh (block dynamic nout nin own ∷ calls) failed s ≡ some (true, s')
      → Built (suc n) s'
  connects :
      {n : ℕ} {s : Simulation} {net : Network} (from out_nr to in_nr : ℕ)
      → Built n s
      → from < s.net.num_blocks
      → to < s.net.num_blocks
      → out_nr < word
      → in_nr < word
      → connect s.net from out_nr to in_nr ≡ (connected, net)
      → Built (suc n) (record s { net = net })
  attaches :
      {n : ℕ} {s : Simulation} {net : Network} (to in_nr portsize : ℕ)
      → Built n s
      → (s.net.in_port to in_nr).intype ≡ undef
      → connect_external s.net to in_nr portsize ≡ (attached, net)
      → Built (suc n) (record s { net = net })

-- What holds of a network that is built: who consumes which output, and no output has more
-- consumers than there were operations.
pub record IsBuilt (n : ℕ) (net : Network) (consumers : ℕ → ℕ → List (ℕ × ℕ)) : Type 0 where
  pub wired : IsWired net consumers
  pub unused : Unused net consumers
  pub few : (b o : ℕ) → length (consumers b o) ≤ n

nobody : ℕ → ℕ → List (ℕ × ℕ)
nobody b o = []
