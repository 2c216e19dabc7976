-- ===== src/Libdyn/Schedule/Correct.antt =====
-- The execution list is the right one: the order of its blocks, and which blocks stand on it.
use mathlib.Core.Path.{subst}
use ortd.Prelude.{
  ℕ, ◌<◌, ◌≡◌, ◌↔◌, refl, sym, ◌∙◌, ◌⊎◌, inl, inr, Bool, true, List, [], ◌∷◌, All, All-InList,
  All-map, InList, here, there, Distinct, failing, arith, dec_lt,
}
use ortd.Libdyn.{Network, direct}
use ortd.Libdyn.Wiring.{IsPure}
use ortd.Libdyn.Schedule.{Schedule, ok, no_blocks, null_head, setup_executionlist}
use ortd.Libdyn.Schedule.Passes.{first_pass-Inv, second_pass-pure}
use ortd.Libdyn.Schedule.Order.{Fed, Ready, Ordered}
use ortd.Libdyn.Schedule.Setup.{
  IsLoaded, ready, ready-Inv, setup-Scheduled, setup-Result, setup-null_head,
}

-- With all inputs true, none fails.
failing_none : (n : ℕ) (f : ℕ → Bool) → ((i : ℕ) → i < n → f i ≡ true) → failing n f ≡ 0
unfolding failing
failing_none ℕ.zero f h = refl
failing_none (ℕ.suc n) f h = ground (arith, h n, failing_none n f (λ i k. h i (omega arith)))

Fed-sub :
    (net : Network) {d d' : List ℕ} (c i : ℕ)
    → ((a : ℕ) → InList a d → InList a d')
    → Fed net d c i
    → Fed net d' c i
Fed-sub net c i f (inl e) = inl e
Fed-sub net c i f (inr m) = inr (m.0, f _ m.1)

Ordered-Ready :
    (net : Network) {c : ℕ} (d l all : List ℕ)
    → Ordered net d l
    → InList c l
    → ((a : ℕ) → InList a d → InList a all)
    → ((a : ℕ) → InList a l → InList a all)
    → Ready net all c
Ordered-Ready net d [] all o m f g = elim m [ ]
Ordered-Ready net {c} d (x ∷ l) all o (here e) f g = subst (Ready net all) (sym e) (grow o.0)
  where
    grow : Ready net d x → Ready net all x
    grow (inl p) = inl p
    grow (inr k) = inr (λ i h. Fed-sub net x i f (k i h))
Ordered-Ready net d (x ∷ l) all o (there m) f g =
    Ordered-Ready net (x ∷ d) l all o.1 m
      (λ a k. elim k [ here e ↦ g a (here e) | there k' ↦ f a k' ]) (λ a k. g a (there k))

module _ (net : Network) (Loop : ℕ → Type 0) (impure : (c : ℕ) → Loop c → ¬ IsPure net c)
    (waits : (c : ℕ)
      → Loop c
      → (i : ℕ) × (i < (net.block c).nin)
        × ((net.in_port c i).intype ≡ direct)
        × Loop (net.in_port c i).pre) where
  first_not : (d : List ℕ) (x : ℕ) → Ready net d x → ((a : ℕ) → InList a d → ¬ Loop a) → ¬ Loop x
  first_not d x (inl pure) f q = impure x q pure
  first_not d x (inr fed) f q =
      let (i, hi, e, next) = waits x q in
      elim (fed i hi) [ inl y ↦ cc (sym e ∙ y) | inr y ↦ f (net.in_port x i).pre y.1 next ]

  none_of :
      (d l : List ℕ)
      → Ordered net d l
      → ((a : ℕ) → InList a d → ¬ Loop a)
      → (a : ℕ) → InList a l
      → ¬ Loop a
  none_of d [] o f a m = elim m [ ]
  none_of d (x ∷ l) o f a (here p) = λ q. first_not d x o.0 f (subst Loop p q)
  none_of d (x ∷ l) o f a (there m) =
      none_of (x ∷ d) l o.1
        (λ b n. elim n [ here p ↦ (λ q. first_not d x o.0 f (subst Loop p q)) | there n' ↦ f b n' ])
        a m

module _ {net : Network} {consumers : ℕ → ℕ → List (ℕ × ℕ)} {links blocks : ℕ} {s : Schedule}
    (h : IsLoaded net consumers links blocks s) where
  -- A block that may stand at the beginning of a list is on the list after the two passes.
  Ready-ready : (b : ℕ) → b < net.num_blocks → Ready net [] b → InList b (ready net s).exec
  Ready-ready b k (inl p) = (ready-Inv h).listing.listed b k (
      second_pass-pure net.num_blocks b (first_pass-Inv net net.num_blocks s h.wired.small h.start)
        (omega arith) k p)
  Ready-ready b k (inr fed) =
      let v = ready-Inv h in
      v.listing.listed b k (
        v.settled.full b k (
          failing_none (net.block b).nin ((ready net s).available b) (λ i hi. elim (fed i hi) [
            | inl x ↦ v.counting.attached b i k hi x
            | inr d ↦ elim d.1 [ ]
          ])))

  starts_none : (ready net s).exec ≡ [] → (b : ℕ) → b < net.num_blocks → ¬ Ready net [] b
  starts_none e b k r = elim (subst (InList b) e (Ready-ready b k r)) [ ]

  -- With a wired network and fuel beyond its size, the algorithm comes to one of three ends: there
  -- are no blocks, and a null pointer is followed; no block is ready before all others, and -1 is
  -- returned; or there is an execution list. It never reports an algebraic loop.
  pub setup_total :
      ((net.num_blocks ≡ 0) × (setup_executionlist net links blocks s ≡ null_head))
      ⊎ (((b : ℕ) → b < net.num_blocks → ¬ Ready net [] b)
          × (setup_executionlist net links blocks s ≡ no_blocks))
      ⊎ ((t : Schedule) × (setup_executionlist net links blocks s ≡ ok t))
  setup_total = elim (dec_lt 0 net.num_blocks) [
    | no k ↦ inl (omega arith, setup-null_head net links blocks s (omega arith))
    | yes k ↦ elim (setup-Scheduled h k) [
      | inl (l, e) ↦ inr (inl (starts_none l, e))
      | inr t ↦ inr (inr (t.state, t.result))
    ]
  ]

  module _ {t : Schedule} (e : setup_executionlist net links blocks s ≡ ok t) where
    -- On a list that is set up, each block of the network stands at most once, and behind the
    -- blocks that feed its inputs, unless it has states and no feedthrough.
    pub setup-Ordered :
        Ordered net [] t.exec × Distinct t.exec × All (λ c. c < net.num_blocks) t.exec
    setup-Ordered =
        let l = (setup-Result h e).inv.listing in
        (l.ordered, l.distinct, All-map t.exec (λ c f. f.0) l.flagged)

    -- Exactly those blocks stand on the list that may: those with states and no feedthrough, and
    -- those whose inputs are all fed by the caller or by blocks of the list.
    pub setup_complete : (c : ℕ) → InList c t.exec ↔ ((c < net.num_blocks) × Ready net t.exec c)
    setup_complete c =
        let l = (setup-Result h e).inv.listing in
        (
          (λ m. (
            (All-InList (λ b. (b < net.num_blocks) × (t.executed b ≡ true)) l.flagged m).0,
            Ordered-Ready net [] t.exec t.exec l.ordered m (λ a k. elim k [ ]) (λ a k. k),
          )),
          (λ p. Ready-InList p.0 p.1),
        )
      where
        Ready-InList : c < net.num_blocks → Ready net t.exec c → InList c t.exec
        Ready-InList k (inl p) = (setup-Result h e).pure c k p
        Ready-InList k (inr fed) =
            let v = (setup-Result h e).inv in
            v.listing.listed c k (
              v.settled.full c k (
                failing_none (net.block c).nin (t.available c) (λ i hi. elim (fed i hi) [
                  | inl x ↦ v.counting.attached c i k hi x
                  | inr d ↦ (setup-Result h e).delivered c i k hi d.0 d.1
                ])))

    left_off :
        (Loop : ℕ → Type 0)
        → ((c : ℕ) → Loop c → ¬ IsPure net c)
        → ((c : ℕ)
            → Loop c
            → (i : ℕ) × (i < (net.block c).nin)
              × ((net.in_port c i).intype ≡ direct)
              × Loop (net.in_port c i).pre)
        → (c : ℕ) → Loop c
        → ¬ InList c t.exec
    left_off Loop impure waits c k m =
        none_of net Loop impure waits [] t.exec (setup-Result h e).inv.listing.ordered
          (λ a n. elim n [ ]) c m k

  -- Where a block of the network is ready before all others, the algorithm returns 0 with an
  -- execution list, and does not report the loops: a set of blocks that wait for one another, each
  -- with an input connected to an output of the set and none with states and without feedthrough, is
  -- left off the list, so that these blocks are never executed.
  pub setup_drops_loops :
      (Loop : ℕ → Type 0)
      → ((c : ℕ) → Loop c → ¬ IsPure net c)
      → ((c : ℕ)
          → Loop c
          → (i : ℕ) × (i < (net.block c).nin)
            × ((net.in_port c i).intype ≡ direct)
            × Loop (net.in_port c i).pre)
      → (b : ℕ) → b < net.num_blocks
      → Ready net [] b
      → (t : Schedule) × (setup_executionlist net links blocks s ≡ ok t)
        × ((c : ℕ) → Loop c → ¬ InList c t.exec)
  setup_drops_loops Loop impure waits b k r = elim setup_total [
    | inl (z, e) ↦ absurd (omega arith)
    | inr (inl (nothing, e)) ↦ absurd (nothing b k r)
    | inr (inr (t, e)) ↦ (t, e, λ c l. left_off e Loop impure waits c l)
  ]
