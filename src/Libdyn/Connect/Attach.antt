-- ===== src/Libdyn/Connect/Attach.antt =====
-- Memory of the caller that is attached to an input keeps the network wired, where the input is on no
-- junction list.
use mathlib.Core.Path.{subst, sym}
use ortd.Prelude.{ℕ, ◌<◌, ◌≡◌, List, [], ◌∷◌, All-map, update_at, arith, InList}
use ortd.Libdyn.{Network, InPort, undef, direct, extern, Junction}
use ortd.Libdyn.Wiring.{IsWired, IsFedBy, IsListed, Linked}
use ortd.Libdyn.Connect.{connect_external, attached}

module _ (net : Network) (to in_nr : ℕ) where
  abbrev pub with_memory : Network
  with_memory = record net {
    in_port = update_at net.in_port to in_nr (record (net.in_port to in_nr) { intype = extern });
  }

  pub connect_external-attached :
      (portsize : ℕ) {net' : Network}
      → connect_external net to in_nr portsize ≡ (attached, net')
      → net' ≡ with_memory
  unfolding connect_external
  connect_external-attached portsize e = ground arith

  Linked-with_memory :
      (l : List (ℕ × ℕ)) (cur : Junction) → Linked net l cur → Linked with_memory l cur
  Linked-with_memory [] cur k = k
  Linked-with_memory ((c, i) ∷ l) cur k = (
    k.0,
    subst (Linked with_memory l) (sym (next c i))
        (Linked-with_memory l (net.in_port c i).next_juncture k.1),
  )
    where
      next : (c i : ℕ) → (with_memory.in_port c i).next_juncture ≡ (net.in_port c i).next_juncture
      next c i = ground arith

  module _ (free : (net.in_port to in_nr).intype ≡ undef) where
    IsFedBy-with_memory : (b o : ℕ) (e : ℕ × ℕ) → IsFedBy net b o e → IsFedBy with_memory b o e
    IsFedBy-with_memory b o e f = record {
      block_in = f.block_in;
      port_in = f.port_in;
      is_direct = ground (arith, f.is_direct, free);
      pre = ground (arith, f.pre);
      out_nr = ground (arith, f.out_nr);
    }

    same_port :
        (c i : ℕ)
        → (with_memory.in_port c i).intype ≡ direct
        → with_memory.in_port c i ≡ net.in_port c i
    same_port c i d = ground (arith, d)

    IsListed-with_memory :
        (consumers : ℕ → ℕ → List (ℕ × ℕ)) (c i : ℕ)
        → with_memory.in_port c i ≡ net.in_port c i
        → IsListed net consumers c i
        → IsListed with_memory consumers c i
    IsListed-with_memory consumers c i e k = record {
      port_in = subst (λ (x : InPort). x.out_nr < (net.block x.pre).nout) (sym e) k.port_in;
      in_list = subst (λ (x : InPort). InList (c, i) (consumers x.pre x.out_nr)) (sym e) k.in_list;
    }

    pub with_memory-IsWired :
        {consumers : ℕ → ℕ → List (ℕ × ℕ)} → IsWired net consumers → IsWired with_memory consumers
    with_memory-IsWired {consumers} w = record {
      links = λ b o. Linked-with_memory (consumers b o) (net.out_port b o).post (w.links b o);
      sound = λ b o. All-map (consumers b o) (IsFedBy-with_memory b o) (w.sound b o);
      distinct = w.distinct;
      complete = λ c i h k d.
          IsListed-with_memory consumers c i (same_port c i d)
            (w.complete c i h k (subst (λ (x : InPort). x.intype ≡ direct) (same_port c i d) d));
      small = w.small;
      small_out = w.small_out;
    }
