-- ===== src/Libdyn/Wiring.antt =====
-- How outputs and inputs of a network belong together: the junction list of each output holds the
-- inputs that name this output, each once.
use ortd.Prelude.{ℕ, ◌<◌, ◌≡◌, ◌^◌, Bool, List, [], ◌∷◌, none, some, All, InList, Distinct}
use ortd.Libdyn.{Network, direct, Junction}

-- The pointers from `cur` on run through the inputs of the list, and end there.
abbrev pub Linked : Network → List (ℕ × ℕ) → Junction → Type 0
Linked net [] cur = cur ≡ none
Linked net ((c, i) ∷ l) cur = (cur ≡ some (c, i)) × Linked net l (net.in_port c i).next_juncture

-- The input `e` names output `o` of block `b`.
pub record IsFedBy (net : Network) (b o : ℕ) (e : ℕ × ℕ) : Type 0 where
  pub block_in : e.0 < net.num_blocks
  pub port_in : e.1 < (net.block e.0).nin
  pub is_direct : (net.in_port e.0 e.1).intype ≡ direct
  pub pre : (net.in_port e.0 e.1).pre ≡ b
  pub out_nr : (net.in_port e.0 e.1).out_nr ≡ o

-- The output that an input names exists, and has this input on its list.
pub record IsListed (net : Network) (consumers : ℕ → ℕ → List (ℕ × ℕ)) (c i : ℕ) : Type 0 where
  pub port_in : (net.in_port c i).out_nr < (net.block (net.in_port c i).pre).nout
  pub in_list : InList (c, i) (consumers (net.in_port c i).pre (net.in_port c i).out_nr)

pub record IsWired (net : Network) (consumers : ℕ → ℕ → List (ℕ × ℕ)) : Type 0 where
  pub links : (b o : ℕ) → Linked net (consumers b o) (net.out_port b o).post
  pub sound : (b o : ℕ) → All (IsFedBy net b o) (consumers b o)
  pub distinct : (b o : ℕ) → Distinct (consumers b o)
  pub complete :
      (c i : ℕ)
      → c < net.num_blocks
      → i < (net.block c).nin
      → (net.in_port c i).intype ≡ direct
      → IsListed net consumers c i
  pub small : (c : ℕ) → (net.block c).nin < 2 ^ 31
  pub small_out : (c : ℕ) → (net.block c).nout < 2 ^ 31

-- A block with states whose outputs do not depend on its inputs.
pub record IsPure (net : Network) (c : ℕ) : Type 0 where
  pub no_feedthrough : (net.block c).d_feedthrough ≡ Bool.false
  pub has_states : (net.block c).dynamic ≡ Bool.true
