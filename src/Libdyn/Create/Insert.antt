-- ===== src/Libdyn/Create/Insert.antt =====
-- A block that is created is not connected, and the network stays wired.
use native.Mathlib.Decide.{ℕ_discrete}
use mathlib.Core.Path.{subst}
use ortd.Prelude.{
  ℕ, ◌<◌, ◌≤◌, ◌^◌, ◌≡◌, ◌≢◌, sym, ◌∙◌, none, List, [], ◌∷◌, All, All-map, InList, arith,
}
use ortd.Libdyn.{Network, undef, direct, Junction}
use ortd.Libdyn.Wiring.{IsWired, IsFedBy, IsListed, Linked}
use ortd.Libdyn.Create.{NewBlock, insert}

-- The number of ports, and no input that is connected.
pub record IsFresh (b : NewBlock) : Type 0 where
  pub small : b.nin < 2 ^ 31
  pub small_out : b.nout < 2 ^ 31
  pub free : (i : ℕ) → (b.inlist i).intype ≡ undef

-- No block beyond the last one has consumers.
abbrev pub Unused : Network → (ℕ → ℕ → List (ℕ × ℕ)) → Type 0
Unused net consumers = (b o : ℕ) → net.num_blocks ≤ b → consumers b o ≡ []

module _ {net : Network} {consumers : ℕ → ℕ → List (ℕ × ℕ)} (b : NewBlock) (f : IsFresh b)
    (w : IsWired net consumers) (unused : Unused net consumers) where
  in_port-insert : (c i : ℕ) → c < net.num_blocks → (insert b net).in_port c i ≡ net.in_port c i
  unfolding insert
  in_port-insert c i h = ground arith

  block-insert : (c : ℕ) → c ≢ net.num_blocks → (insert b net).block c ≡ net.block c
  unfolding insert
  block-insert c h = ground arith

  Linked-insert :
      (p o : ℕ) (l : List (ℕ × ℕ)) (cur : Junction)
      → All (IsFedBy net p o) l
      → Linked net l cur
      → Linked (insert b net) l cur
  Linked-insert p o [] cur fed k = k
  Linked-insert p o ((c, i) ∷ l) cur fed k = (
    k.0,
    rw (in_port-insert c i fed.0.block_in)
        (Linked-insert p o l (net.in_port c i).next_juncture fed.1 k.1),
  )

  post-insert_self : (o : ℕ) → ((insert b net).out_port net.num_blocks o).post ≡ none
  unfolding insert
  post-insert_self o = ground arith

  post-insert_ne :
      (p o : ℕ) → p ≢ net.num_blocks → ((insert b net).out_port p o).post ≡ (net.out_port p o).post
  unfolding insert
  post-insert_ne p o h = ground arith

  links_insert :
      (p o : ℕ) → Linked (insert b net) (consumers p o) ((insert b net).out_port p o).post
  links_insert p o = elim (ℕ_discrete p net.num_blocks) [
    | yes e ↦ rw e (rw (unused net.num_blocks o (omega arith)) (post-insert_self o))
    | no ne ↦
        rw (post-insert_ne p o ne)
          (Linked-insert p o (consumers p o) (net.out_port p o).post (w.sound p o) (w.links p o))
  ]

  IsFedBy-insert : (p o : ℕ) (e : ℕ × ℕ) → IsFedBy net p o e → IsFedBy (insert b net) p o e
  unfolding insert
  IsFedBy-insert p o e k = record {
    block_in = omega (arith, k.block_in);
    port_in = ground (arith, k.block_in, k.port_in);
    is_direct = ground (arith, k.block_in, k.is_direct);
    pre = ground (arith, k.block_in, k.pre);
    out_nr = ground (arith, k.block_in, k.out_nr);
  }

  -- The block that feeds an input is an old one.
  pre_ne : (c i : ℕ) → IsListed net consumers c i → (net.in_port c i).pre ≢ net.num_blocks
  pre_ne c i k e =
      elim (subst (InList (c, i))
        (unused (net.in_port c i).pre (net.in_port c i).out_nr (omega arith)) k.in_list) [ ]

  IsListed-insert :
      (c i : ℕ)
      → c < net.num_blocks
      → IsListed net consumers c i
      → IsListed (insert b net) consumers c i
  IsListed-insert c i h k = record {
    port_in =
        rw (in_port-insert c i h)
          (rw (block-insert (net.in_port c i).pre (pre_ne c i k)) k.port_in);
    in_list = rw (in_port-insert c i h) k.in_list;
  }

  intype-insert_self : (i : ℕ) → ((insert b net).in_port net.num_blocks i).intype ≡ undef
  unfolding insert
  intype-insert_self i = ground (arith, f.free i)

  complete_insert :
      (c i : ℕ)
      → c < (insert b net).num_blocks
      → i < ((insert b net).block c).nin
      → ((insert b net).in_port c i).intype ≡ direct
      → IsListed (insert b net) consumers c i
  unfolding insert
  complete_insert c i h k d = elim (ℕ_discrete c net.num_blocks) [
    | yes e ↦ cc (sym (rw e at d) ∙ intype-insert_self i)
    | no ne ↦
        let old : c < net.num_blocks = omega arith in
        IsListed-insert c i old
          (w.complete c i old (rw (block-insert c ne) at k) (rw (in_port-insert c i old) at d))
  ]

  pub insert-IsWired : IsWired (insert b net) consumers
  unfolding insert
  insert-IsWired = record {
    links = links_insert;
    sound = λ p o. All-map (consumers p o) (IsFedBy-insert p o) (w.sound p o);
    distinct = w.distinct;
    complete = complete_insert;
    small = λ c. ground (arith, w.small c, f.small);
    small_out = λ c. ground (arith, w.small_out c, f.small_out);
  }

  pub insert-Unused : Unused (insert b net) consumers
  unfolding insert
  insert-Unused p o h = unused p o (omega arith)
