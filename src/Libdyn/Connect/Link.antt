-- ===== src/Libdyn/Connect/Link.antt =====
-- A connection that is accepted keeps the network wired.
use native.Mathlib.Decide.{ℕ_discrete}
use mathlib.Core.Path.{subst, subst₂}
use ortd.Prelude.{
  ℕ, ◌<◌, ◌^◌, ◌≡◌, ◌≢◌, refl, sym, ap, ◌∙◌, true, false, some, List, [], ◌∷◌, All, All-map, InList,
  here, there, Distinct, update_at, arith, word,
}
use ortd.Libdyn.{Network, InPort, InType, undef, direct, extern, Junction}
use ortd.Libdyn.Wiring.{IsWired, IsFedBy, IsListed, Linked}
use ortd.Libdyn.Connect.{connected, link, connect, is_undef, out_of_range}

undef_of : (t : InType) → is_undef t ≡ true → t ≡ undef
unfolding is_undef
undef_of undef e = refl
undef_of direct e = cc
undef_of extern e = cc

in_range :
    (port count : ℕ) → port < word → count < 2 ^ 31 → out_of_range port count ≡ false → port < count
unfolding out_of_range
in_range port count h k e = ground arith

-- What an accepted connection has checked, and the network that it returns.
record Accepted (net : Network) (from out_nr to in_nr : ℕ) (net' : Network) : Type 0 where
  in_ok : out_of_range in_nr (net.block to).nin ≡ false
  out_ok : out_of_range out_nr (net.block from).nout ≡ false
  free : is_undef (net.in_port to in_nr).intype ≡ true
  result : net' ≡ link net from out_nr to in_nr

connect-Accepted :
    (net : Network) (from out_nr to in_nr : ℕ) {net' : Network}
    → connect net from out_nr to in_nr ≡ (connected, net')
    → Accepted net from out_nr to in_nr net'
unfolding connect
connect-Accepted net from out_nr to in_nr e = ground arith

module _ (net : Network) (from out_nr to in_nr : ℕ) where
  in_port-link_self :
      (link net from out_nr to in_nr).in_port to in_nr ≡ record (net.in_port to in_nr) {
        pre = from;
        out_nr = out_nr;
        intype = direct;
        next_juncture = (net.out_port from out_nr).post;
      }
  unfolding link
  in_port-link_self = ground arith

  in_port-link_ne :
      (c i : ℕ)
      → (c ≡ to → i ≢ in_nr)
      → (link net from out_nr to in_nr).in_port c i ≡ net.in_port c i
  unfolding link
  in_port-link_ne c i ne = ground arith

  post-link_self : ((link net from out_nr to in_nr).out_port from out_nr).post ≡ some (to, in_nr)
  unfolding link
  post-link_self = ground arith

  post-link_ne :
      (b o : ℕ)
      → (b ≡ from → o ≢ out_nr)
      → ((link net from out_nr to in_nr).out_port b o).post ≡ (net.out_port b o).post
  unfolding link
  post-link_ne b o ne = ground arith

  block-link : (link net from out_nr to in_nr).block ≡ net.block
  unfolding link
  block-link = refl

IsListed-of :
    (net : Network) (consumers : ℕ → ℕ → List (ℕ × ℕ)) (c i : ℕ) {x : InPort}
    → net.in_port c i ≡ x
    → x.out_nr < (net.block x.pre).nout
    → InList (c, i) (consumers x.pre x.out_nr)
    → IsListed net consumers c i
IsListed-of net consumers c i e h m = record {
  port_in = subst (λ (y : InPort). y.out_nr < (net.block y.pre).nout) (sym e) h;
  in_list = subst (λ (y : InPort). InList (c, i) (consumers y.pre y.out_nr)) (sym e) m;
}

-- The consumers of the outputs after the connection: the new one is the first on its list.
abbrev pub linked : (ℕ → ℕ → List (ℕ × ℕ)) → ℕ → ℕ → ℕ → ℕ → ℕ → ℕ → List (ℕ × ℕ)
linked consumers from out_nr to in_nr =
    update_at consumers from out_nr ((to, in_nr) ∷ consumers from out_nr)

module _ {net : Network} {consumers : ℕ → ℕ → List (ℕ × ℕ)} (from out_nr to in_nr : ℕ)
    (w : IsWired net consumers) (free : (net.in_port to in_nr).intype ≡ undef) where
  -- An input that is connected is another one.
  direct_ne : {b o : ℕ} (c i : ℕ) → IsFedBy net b o (c, i) → c ≡ to → i ≢ in_nr
  direct_ne c i f p q = cc (
      sym f.is_direct
      ∙ ap (λ x. (net.in_port x i).intype) p
      ∙ ap (λ x. (net.in_port to x).intype) q
      ∙ free)

  Linked-link :
      (b o : ℕ) (l : List (ℕ × ℕ)) (cur : Junction)
      → All (IsFedBy net b o) l
      → Linked net l cur
      → Linked (link net from out_nr to in_nr) l cur
  Linked-link b o [] cur h k = k
  Linked-link b o ((c, i) ∷ l) cur h k =
      let same = in_port-link_ne net from out_nr to in_nr c i (direct_ne c i h.0) in
      (
        k.0,
        subst (λ (x : InPort). Linked (link net from out_nr to in_nr) l x.next_juncture) (sym same)
            (Linked-link b o l (net.in_port c i).next_juncture h.1 k.1),
      )

  IsFedBy-link :
      {b o : ℕ} (e : ℕ × ℕ) → IsFedBy net b o e → IsFedBy (link net from out_nr to in_nr) b o e
  unfolding link
  IsFedBy-link (c, i) f =
      let same = in_port-link_ne net from out_nr to in_nr c i (direct_ne c i f) in
      record {
        block_in = f.block_in;
        port_in = f.port_in;
        is_direct = ap (λ (x : InPort). x.intype) same ∙ f.is_direct;
        pre = ap (λ (x : InPort). x.pre) same ∙ f.pre;
        out_nr = ap (λ (x : InPort). x.out_nr) same ∙ f.out_nr;
      }

  IsFedBy-link_self :
      to < net.num_blocks
      → in_nr < (net.block to).nin
      → IsFedBy (link net from out_nr to in_nr) from out_nr (to, in_nr)
  unfolding link
  IsFedBy-link_self h k =
      let same = in_port-link_self net from out_nr to in_nr in
      record {
        block_in = h;
        port_in = k;
        is_direct = ap (λ (x : InPort). x.intype) same;
        pre = ap (λ (x : InPort). x.pre) same;
        out_nr = ap (λ (x : InPort). x.out_nr) same;
      }

  linked_self :
      linked consumers from out_nr to in_nr from out_nr ≡ (to, in_nr) ∷ consumers from out_nr
  linked_self = ground arith

  linked_ne :
      (b o : ℕ)
      → (b ≡ from → o ≢ out_nr)
      → linked consumers from out_nr to in_nr b o ≡ consumers b o
  linked_ne b o ne = ground arith

  -- To prove something of every output: of the one that is connected, and of any other.
  outputs {ℓ} :
      (P : ℕ → ℕ → Type ℓ)
      → P from out_nr
      → ((b o : ℕ) → (b ≡ from → o ≢ out_nr) → P b o)
      → (b o : ℕ) → P b o
  outputs P this other b o = elim (ℕ_discrete b from) [
    | no p ↦ other b o (λ e. absurd (p e))
    | yes p ↦ elim (ℕ_discrete o out_nr) [
      | no q ↦ other b o (λ e. q)
      | yes q ↦ subst₂ P (sym p) (sym q) this
    ]
  ]

  links_link :
      (b o : ℕ)
      → Linked
          (link net from out_nr to in_nr)
          (linked consumers from out_nr to in_nr b o)
          ((link net from out_nr to in_nr).out_port b o).post
  links_link =
      outputs
        (λ b o.
          Linked (link net from out_nr to in_nr) (linked consumers from out_nr to in_nr b o)
            ((link net from out_nr to in_nr).out_port b o).post)
        (subst
          (λ l.
            Linked (link net from out_nr to in_nr) l
              ((link net from out_nr to in_nr).out_port from out_nr).post)
          (sym linked_self)
          (
            post-link_self net from out_nr to in_nr,
            subst
                (λ (x : InPort).
                  Linked (link net from out_nr to in_nr) (consumers from out_nr) x.next_juncture)
                (sym (in_port-link_self net from out_nr to in_nr))
                (Linked-link from out_nr (consumers from out_nr) (net.out_port from out_nr).post
                  (w.sound from out_nr) (w.links from out_nr)),
          ))
        (λ b o ne.
          subst₂ (λ l x. Linked (link net from out_nr to in_nr) l x) (sym (linked_ne b o ne))
            (sym (post-link_ne net from out_nr to in_nr b o ne))
            (Linked-link b o (consumers b o) (net.out_port b o).post (w.sound b o) (w.links b o)))

  widen :
      (e : ℕ × ℕ) (b o : ℕ)
      → InList e (consumers b o)
      → InList e (linked consumers from out_nr to in_nr b o)
  widen e =
      outputs
        (λ b o. InList e (consumers b o) → InList e (linked consumers from out_nr to in_nr b o))
        (λ m. rw linked_self (there m)) (λ b o ne m. rw (linked_ne b o ne) m)

  complete_link :
      out_nr < (net.block from).nout
      → (c i : ℕ) → c < net.num_blocks
      → i < (net.block c).nin
      → ((link net from out_nr to in_nr).in_port c i).intype ≡ direct
      → IsListed (link net from out_nr to in_nr) (linked consumers from out_nr to in_nr) c i
  unfolding link
  complete_link room c i hc hi e = elim (ℕ_discrete c to) [
    | no p ↦ other (λ q. absurd (p q))
    | yes p ↦ elim (ℕ_discrete i in_nr) [
      | no q ↦ other (λ x. q)
      | yes q ↦
          subst₂ (IsListed (link net from out_nr to in_nr) (linked consumers from out_nr to in_nr))
            (sym p) (sym q) this
    ]
  ]
    where
      this :
          IsListed (link net from out_nr to in_nr) (linked consumers from out_nr to in_nr) to in_nr
      this =
          IsListed-of (link net from out_nr to in_nr) (linked consumers from out_nr to in_nr) to
            in_nr (in_port-link_self net from out_nr to in_nr) room (rw linked_self (here refl))

      other :
          (c ≡ to → i ≢ in_nr)
          → IsListed (link net from out_nr to in_nr) (linked consumers from out_nr to in_nr) c i
      other ne =
          let same = in_port-link_ne net from out_nr to in_nr c i ne in
          let old = w.complete c i hc hi (sym (ap (λ (x : InPort). x.intype) same) ∙ e) in
          IsListed-of (link net from out_nr to in_nr) (linked consumers from out_nr to in_nr) c i
            same old.port_in
            (widen (c, i) (net.in_port c i).pre (net.in_port c i).out_nr old.in_list)

  link-IsWired :
      to < net.num_blocks
      → in_nr < (net.block to).nin
      → out_nr < (net.block from).nout
      → IsWired (link net from out_nr to in_nr) (linked consumers from out_nr to in_nr)
  unfolding link
  link-IsWired h k room = record {
    links = links_link;
    sound =
        outputs
          (λ b o.
            All (IsFedBy (link net from out_nr to in_nr) b o)
              (linked consumers from out_nr to in_nr b o))
          (rw linked_self (
            IsFedBy-link_self h k,
            All-map (consumers from out_nr) IsFedBy-link (w.sound from out_nr),
          ))
          (λ b o ne. rw (linked_ne b o ne) (All-map (consumers b o) IsFedBy-link (w.sound b o)));
    distinct =
        outputs (λ b o. Distinct (linked consumers from out_nr to in_nr b o))
          (rw linked_self (
            All-map (consumers from out_nr)
                (λ e f p.
                  direct_ne e.0 e.1 f (sym (ap (λ (x : ℕ × ℕ). x.0) p))
                    (sym (ap (λ (x : ℕ × ℕ). x.1) p)))
                (w.sound from out_nr),
            w.distinct from out_nr,
          ))
          (λ b o ne. rw (linked_ne b o ne) (w.distinct b o));
    complete = complete_link room;
    small = w.small;
    small_out = w.small_out;
  }

-- What an accepted connection changes: the input gets the address of the output and its place on
-- the junction list, the output gets the input as the head of this list. The sizes and types of both
-- ports, all other ports and all blocks stay.
pub record IsConnected (net : Network) (from out_nr to in_nr : ℕ) (net' : Network) : Type 0 where
  num_blocks : net'.num_blocks ≡ net.num_blocks
  block : (b : ℕ) → net'.block b ≡ net.block b
  is_direct : (net'.in_port to in_nr).intype ≡ direct
  pre : (net'.in_port to in_nr).pre ≡ from
  out_nr_kept : (net'.in_port to in_nr).out_nr ≡ out_nr
  next : (net'.in_port to in_nr).next_juncture ≡ (net.out_port from out_nr).post
  in_len : (net'.in_port to in_nr).len ≡ (net.in_port to in_nr).len
  in_datatype : (net'.in_port to in_nr).datatype ≡ (net.in_port to in_nr).datatype
  other_inputs : (c i : ℕ) → (c ≡ to → i ≢ in_nr) → net'.in_port c i ≡ net.in_port c i
  head : (net'.out_port from out_nr).post ≡ some (to, in_nr)
  out_direct : (net'.out_port from out_nr).outtype_direct ≡ true
  out_len : (net'.out_port from out_nr).len ≡ (net.out_port from out_nr).len
  out_datatype : (net'.out_port from out_nr).datatype ≡ (net.out_port from out_nr).datatype
  other_outputs : (b o : ℕ) → (b ≡ from → o ≢ out_nr) → net'.out_port b o ≡ net.out_port b o

link-IsConnected :
    (net : Network) (from out_nr to in_nr : ℕ)
    → IsConnected net from out_nr to in_nr (link net from out_nr to in_nr)
unfolding link
link-IsConnected net from out_nr to in_nr =
    let same = in_port-link_self net from out_nr to in_nr in
    record {
      num_blocks = refl;
      block = λ b. refl;
      is_direct = ap (λ (x : InPort). x.intype) same;
      pre = ap (λ (x : InPort). x.pre) same;
      out_nr_kept = ap (λ (x : InPort). x.out_nr) same;
      next = ap (λ (x : InPort). x.next_juncture) same;
      in_len = ap (λ (x : InPort). x.len) same;
      in_datatype = ap (λ (x : InPort). x.datatype) same;
      other_inputs = in_port-link_ne net from out_nr to in_nr;
      head = post-link_self net from out_nr to in_nr;
      out_direct = ground arith;
      out_len = ground arith;
      out_datatype = ground arith;
      other_outputs = λ b o ne. ground arith;
    }

-- A connection between two blocks of a wired network that is accepted gives a wired network, in
-- which the input is the first on the junction list of the output. The sizes and types of the two
-- ports, all other ports and all blocks are as before.
pub connect-IsWired :
    {net net' : Network} {consumers : ℕ → ℕ → List (ℕ × ℕ)} (from out_nr to in_nr : ℕ)
    → IsWired net consumers
    → to < net.num_blocks
    → out_nr < word
    → in_nr < word
    → connect net from out_nr to in_nr ≡ (connected, net')
    → IsWired net' (linked consumers from out_nr to in_nr)
      × IsConnected net from out_nr to in_nr net'
connect-IsWired {net} from out_nr to in_nr w h ho hi e =
    let a = connect-Accepted net from out_nr to in_nr e in
    rw a.result (
      link-IsWired from out_nr to in_nr w (undef_of (net.in_port to in_nr).intype a.free) h
          (in_range in_nr (net.block to).nin hi (w.small to) a.in_ok)
          (in_range out_nr (net.block from).nout ho (w.small_out from) a.out_ok),
      link-IsConnected net from out_nr to in_nr,
    )
