-- ===== src/Libdyn/Schedule/Mark.antt =====
-- One input of a junction list is marked: it becomes available, and its block may join the list.
use native.Mathlib.Decide.{ℕ_discrete}
use mathlib.Core.List.{append-nil}
use ortd.Prelude.{
  ℕ, ◌<◌, ◌≡◌, ◌≢◌, refl, sym, ◌∙◌, ◌⊎◌, inl, inr, true, false, List, [], ◌∷◌, ◌++◌, InList,
  failing, failing-zero, arith, ◌==◌, Bool-cases, ==_iff,
}
use ortd.Libdyn.{Network, InType, undef, extern, direct}
use ortd.Libdyn.Wiring.{IsPure}
use ortd.Libdyn.Schedule.{Schedule, add_to_execution_list, set_and_check_avail, Outcome, ok, mark}
use ortd.Libdyn.Schedule.Order.{Ready}
use ortd.Libdyn.Schedule.Invariant.{Listing, Counting, Settled, Inv, added, added-Listing}
use ortd.Libdyn.Schedule.Supply.{
  supplied, Fresh, failing-supplied, failing-supplied_ne, available-supplied,
  available-supplied_cases, available-supplied_keeps, supplied-Counting,
}

-- What marking an input has done: it succeeds, the invariant holds, the execution list has grown
-- at its end, and this input and no other has become available.
pub record Marked (net : Network) (m : ℕ) (done : ℕ → ℕ → Type 0) (s : Schedule) (c i : ℕ)
    (out : Outcome) : Type 0 where
  pub state : Schedule
  pub result : out ≡ ok state
  pub inv : Inv net m done state
  pub extra : List ℕ
  pub grows : state.exec ≡ s.exec ++ extra
  pub marked : state.available c i ≡ true
  pub keeps : (b j : ℕ) → s.available b j ≡ true → state.available b j ≡ true
  pub others :
      (b j : ℕ) → state.available b j ≡ true → ((b ≡ c) × (j ≡ i)) ⊎ (s.available b j ≡ true)

supplied-Marked :
    {net : Network} {m : ℕ} {done : ℕ → ℕ → Type 0} {s : Schedule} {c i : ℕ} {out : Outcome}
    → out ≡ ok (supplied c i s)
    → Inv net m done (supplied c i s)
    → Marked net m done s c i out
unfolding supplied
supplied-Marked {s = s} {c = c} {i = i} e v = record {
  state = supplied c i s;
  result = e;
  inv = v;
  extra = [];
  grows = sym (append-nil s.exec);
  marked = available-supplied s c i;
  keeps = available-supplied_keeps s c i;
  others = available-supplied_cases s c i;
}

added-Marked :
    {net : Network} {m : ℕ} {done : ℕ → ℕ → Type 0} {s : Schedule} {c i : ℕ} {out : Outcome}
    → out ≡ ok (added c (supplied c i s))
    → Inv net m done (added c (supplied c i s))
    → Marked net m done s c i out
unfolding added supplied
added-Marked {s = s} {c = c} {i = i} e v = record {
  state = added c (supplied c i s);
  result = e;
  inv = v;
  extra = c ∷ [];
  grows = refl;
  marked = available-supplied s c i;
  keeps = available-supplied_keeps s c i;
  others = available-supplied_cases s c i;
}

-- `mark` computes from the counter and from the flag of the block.
mark-incomplete :
    (net : Network) (c i : ℕ) (s : Schedule)
    → ((supplied c i s).remaining c == 0) ≡ false
    → mark net c i s ≡ ok (supplied c i s)
unfolding mark set_and_check_avail supplied
mark-incomplete net c i s e = ground arith

mark-complete_new :
    (net : Network) (c i : ℕ) (s : Schedule)
    → ((supplied c i s).remaining c == 0) ≡ true
    → (supplied c i s).executed c ≡ false
    → mark net c i s ≡ ok (added c (supplied c i s))
unfolding mark set_and_check_avail supplied added add_to_execution_list
mark-complete_new net c i s e n = ground arith

mark-complete_old :
    (net : Network) (c i : ℕ) (s : Schedule)
    → ((supplied c i s).remaining c == 0) ≡ true
    → (supplied c i s).executed c ≡ true
    → (net.block c).d_feedthrough ≡ false
    → mark net c i s ≡ ok (supplied c i s)
unfolding mark set_and_check_avail supplied add_to_execution_list
mark-complete_old net c i s e n p = ground arith

supplied-Listing :
    {net : Network} {m : ℕ} {s : Schedule} (c i : ℕ)
    → Listing net m s
    → Listing net m (supplied c i s)
unfolding supplied
supplied-Listing c i l = record {
  listed = l.listed;
  flagged = l.flagged;
  distinct = l.distinct;
  ordered = l.ordered;
  measure = l.measure;
}

module _ {net : Network} {m : ℕ} {done : ℕ → ℕ → Type 0} {s : Schedule} {c i : ℕ}
    (v : Inv net m done s) (f : Fresh net m s c i) where
  -- Blocks other than `c` see no difference.
  settled_ne :
      (b : ℕ)
      → b ≢ c
      → failing (net.block b).nin ((supplied c i s).available b)
        ≡ failing (net.block b).nin (s.available b)
  settled_ne b ne = sym (failing-supplied_ne s (net.block b).nin c i b ne)

  -- Before, the block was not complete; so it is on the list only if it needs no input.
  listed-IsPure : s.executed c ≡ true → IsPure net c
  listed-IsPure e = elim (v.settled.why c f.block_in e) [
    | inl p ↦ p
    | inr z ↦ absurd (omega (arith, failing-supplied f))
  ]

  supplied-Settled :
      (failing (net.block c).nin ((supplied c i s).available c) ≡ 0 → s.executed c ≡ true)
      → Settled net m (supplied c i s)
  unfolding supplied
  supplied-Settled full = record {
    full = λ b hb z. elim (ℕ_discrete b c) [
      | yes p ↦ rw p (full (rw p at z))
      | no p ↦ v.settled.full b hb (sym (settled_ne b p) ∙ z)
    ];
    why = λ b hb e. elim (ℕ_discrete b c) [
      | yes p ↦ inl (rw p (listed-IsPure (rw p at e)))
      | no p ↦ elim (v.settled.why b hb e) [ inl q ↦ inl q | inr z ↦ inr (settled_ne b p ∙ z) ]
    ];
  }

  added-Settled :
      failing (net.block c).nin ((supplied c i s).available c) ≡ 0
      → Settled net m (added c (supplied c i s))
  unfolding supplied added
  added-Settled done_c = record {
    full = λ b hb z. elim (ℕ_discrete b c) [
      | yes p ↦ ground arith
      | no p ↦ ground (arith, v.settled.full b hb (sym (settled_ne b p) ∙ z))
    ];
    why = λ b hb e. elim (ℕ_discrete b c) [
      | yes p ↦ inr (rw p done_c)
      | no p ↦ elim (v.settled.why b hb (ground arith)) [
        | inl q ↦ inl q
        | inr z ↦ inr (settled_ne b p ∙ z)
      ]
    ];
  }

InType-cases : (t : InType) → (t ≡ undef) ⊎ ((t ≡ extern) ⊎ (t ≡ direct))
InType-cases undef = inl refl
InType-cases direct = inr (inr refl)
InType-cases extern = inr (inl refl)

-- A block with all inputs available may follow the execution list, if the causes stand on it.
complete-Ready :
    {net : Network} {m : ℕ} {done : ℕ → ℕ → Type 0} {s : Schedule} (c : ℕ)
    → Counting net m done s
    → ((b j : ℕ) → done b j → InList (net.in_port b j).pre s.exec)
    → c < m
    → failing (net.block c).nin (s.available c) ≡ 0
    → Ready net s.exec c
complete-Ready {net} {s = s} c k covers h z = inr (λ j hj.
    let have = failing-zero (net.block c).nin (s.available c) j z hj in
    elim (k.cause c j h hj have) [
      | inl e ↦ inl e
      | inr d ↦ elim (InType-cases (net.in_port c j).intype) [
        | inl none_ ↦ absurd (k.connected c j h hj have none_)
        | inr t ↦ elim t [ inl e ↦ inl e | inr e ↦ inr (e, covers c j d) ]
      ]
    ])

exec-supplied : (s : Schedule) (c i : ℕ) → (supplied c i s).exec ≡ s.exec
unfolding supplied
exec-supplied s c i = refl

executed-supplied : (s : Schedule) (c i : ℕ) → (supplied c i s).executed ≡ s.executed
unfolding supplied
executed-supplied s c i = refl

pub added-Counting :
    {net : Network} {m : ℕ} {done : ℕ → ℕ → Type 0} {s : Schedule} (c : ℕ)
    → Counting net m done s
    → Counting net m done (added c s)
unfolding added
added-Counting c k = record {
  count = k.count;
  cause = k.cause;
  connected = k.connected;
  attached = k.attached;
}

-- Marking an input that was not available always succeeds: the error for an algebraic loop is not
-- reached, since a block with feedthrough is on the list only if all its inputs were available.
pub mark_lem :
    {net : Network} {m : ℕ} {done : ℕ → ℕ → Type 0} {s : Schedule} (c i : ℕ)
    → Inv net m done s
    → Fresh net m s c i
    → done c i
    → ((b j : ℕ) → done b j → InList (net.in_port b j).pre s.exec)
    → Marked net m done s c i (mark net c i s)
mark_lem {net} {m} {done} {s} c i v f d covers =
    elim (Bool-cases ((supplied c i s).remaining c == 0)) [
      | inr more ↦
          supplied-Marked (mark-incomplete net c i s more)
            (inv (supplied-Settled v f (λ z. cc (sym more ∙ complete_of z))))
      | inl all ↦
          let z : failing (net.block c).nin ((supplied c i s).available c) ≡ 0 =
            sym (k.count c f.block_in) ∙ (==_iff ((supplied c i s).remaining c) 0).0 all in
          elim (Bool-cases (s.executed c)) [
            | inl old ↦
                supplied-Marked
                  (mark-complete_old net c i s all (rw (executed-supplied s c i) old)
                    (listed-IsPure v f old).no_feedthrough)
                  (inv (supplied-Settled v f (λ z. old)))
            | inr new ↦
                added-Marked (mark-complete_new net c i s all (rw (executed-supplied s c i) new))
                  (record {
                    listing =
                        added-Listing c (supplied-Listing c i v.listing) f.block_in
                          (rw (executed-supplied s c i) new)
                          (complete-Ready c k (rw (exec-supplied s c i) covers) f.block_in z);
                    counting = added-Counting c k;
                    settled = added-Settled v f z;
                  })
          ]
    ]
  where
    k : Counting net m done (supplied c i s)
    k = supplied-Counting v.counting f d

    inv : Settled net m (supplied c i s) → Inv net m done (supplied c i s)
    inv t = record { listing = supplied-Listing c i v.listing; counting = k; settled = t }

    complete_of :
        failing (net.block c).nin ((supplied c i s).available c) ≡ 0
        → ((supplied c i s).remaining c == 0) ≡ true
    complete_of z = (==_iff ((supplied c i s).remaining c) 0).1 (k.count c f.block_in ∙ z)
