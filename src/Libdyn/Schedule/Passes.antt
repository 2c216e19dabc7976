-- ===== src/Libdyn/Schedule/Passes.antt =====
-- The two passes over all blocks establish the invariant of the algorithm.
use native.Mathlib.Decide.{ℕ_discrete}
use ortd.Prelude.{
  ℕ, zero, suc, ◌≤◌, ◌<◌, ◌^◌, ◌≡◌, refl, sym, ap, ◌∙◌, inl, inr, Bool, true, false, not, ◌&&◌, [],
  All-map, length, failing, failing-cong, failing-zero, update, arith, Bool-cases,
}
use ortd.Libdyn.{Network}
use ortd.Libdyn.Wiring.{IsPure}
use ortd.Libdyn.Schedule.{
  Schedule, reset_inputs, reset_block, first_pass, add_dynamic, second_pass, add_to_execution_list,
}
use ortd.Libdyn.Schedule.Reset.{Reset, reset_inputs-Reset}
use ortd.Libdyn.Schedule.Order.{Ready}
use ortd.Libdyn.Schedule.Invariant.{Inv, Listing, Counting, added, add-new, add-old, added-Listing}
use ortd.Libdyn.Schedule.Mark.{added-Counting}
use ortd.Libdyn.Schedule.Process.{Done}

-- The state in which the first pass looks at the inputs of block `b`.
abbrev cleared : Network → ℕ → Schedule → Schedule
cleared net b s = record s {
  remaining = update s.remaining b (net.block b).nin;
  executed = update s.executed b false;
}

module _ {net : Network} {b : ℕ} {s : Schedule} {out : Bool × Schedule}
    (v : Inv net b (Done net []) s) (t : Reset net b (net.block b).nin (cleared net b s) out) where
  same :
      (c : ℕ)
      → c < b
      → failing (net.block c).nin (out.1.available c) ≡ failing (net.block c).nin (s.available c)
  same c h =
      failing-cong (net.block c).nin (out.1.available c) (s.available c)
        (λ j k. t.other_inputs c j (omega arith))

  executed_old : (c : ℕ) → c < b → out.1.executed c ≡ s.executed c
  executed_old c h = rw t.executed (ground arith)

  executed_new : out.1.executed b ≡ false
  executed_new = rw t.executed (ground arith)

  reset-Listing : Listing net (suc b) out.1
  unfolding failing
  reset-Listing = record {
    listed = λ c h e. elim (ℕ_discrete c b) [
      | yes p ↦ cc (sym (rw p at e) ∙ executed_new)
      | no p ↦ rw t.exec (v.listing.listed c (omega arith) (sym (executed_old c (omega arith)) ∙ e))
    ];
    flagged =
        rw t.exec (
          All-map s.exec (λ c f. (omega (arith, f.0), executed_old c f.0 ∙ f.1)) v.listing.flagged);
    distinct = rw t.exec v.listing.distinct;
    ordered = rw t.exec v.listing.ordered;
    measure = ground (
      arith,
      ap length t.exec,
      v.listing.measure,
      executed_new,
      failing-cong b out.1.executed s.executed executed_old,
    );
  }

  reset-Counting : Counting net (suc b) (Done net []) out.1
  reset-Counting = record {
    count = λ c h. elim (ℕ_discrete c b) [
      | yes p ↦ rw p here_count
      | no p ↦
          t.other_counts c p
          ∙ ground (arith, v.counting.count c (omega arith))
          ∙ sym (same c (omega arith))
    ];
    cause = λ c j h k e. elim (ℕ_discrete c b) [
      | yes p ↦ inl (rw p (t.cause j (rw p at k) (rw p at e)))
      | no p ↦ v.counting.cause c j (omega arith) k (sym (t.other_inputs c j p) ∙ e)
    ];
    connected = λ c j h k e. elim (ℕ_discrete c b) [
      | yes p ↦ λ u. cc (sym (t.cause j (rw p at k) (rw p at e)) ∙ rw p at u)
      | no p ↦ v.counting.connected c j (omega arith) k (sym (t.other_inputs c j p) ∙ e)
    ];
    attached = λ c j h k e. elim (ℕ_discrete c b) [
      | yes p ↦ rw p (t.attached j (rw p at k) (rw p at e))
      | no p ↦ t.other_inputs c j p ∙ v.counting.attached c j (omega arith) k e
    ];
  }
    where
      here_count : out.1.remaining b ≡ failing (net.block b).nin (out.1.available b)
      here_count = ground (arith, t.count)

  reset-missing : out.0 ≡ false → Inv net (suc b) (Done net []) out.1
  reset-missing e = record {
    listing = reset-Listing;
    counting = reset-Counting;
    settled = record {
      full = λ c h z. elim (ℕ_discrete c b) [
        | yes p ↦ absurd (omega (arith, t.incomplete e, rw p at z))
        | no p ↦
            executed_old c (omega arith)
            ∙ v.settled.full c (omega arith) (sym (same c (omega arith)) ∙ z)
      ];
      why = λ c h e'. elim (ℕ_discrete c b) [
        | yes p ↦ cc (sym (rw p at e') ∙ executed_new)
        | no p ↦ elim (v.settled.why c (omega arith) (sym (executed_old c (omega arith)) ∙ e')) [
          | inl q ↦ inl q
          | inr z ↦ inr (same c (omega arith) ∙ z)
        ]
      ];
    };
  }

  reset-Ready : out.0 ≡ true → Ready net out.1.exec b
  reset-Ready e = inr (λ i k.
      inl (t.cause i k (failing-zero (net.block b).nin (out.1.available b) i (t.complete e) k)))

  reset-full : out.0 ≡ true → Inv net (suc b) (Done net []) (added b out.1)
  unfolding added
  reset-full e = record {
    listing = added-Listing b reset-Listing (omega arith) executed_new (reset-Ready e);
    counting = added-Counting b reset-Counting;
    settled = record {
      full = λ c h z. elim (ℕ_discrete c b) [
        | yes p ↦ ground arith
        | no p ↦ ground (
          arith,
          executed_old c (omega arith),
          v.settled.full c (omega arith) (sym (same c (omega arith)) ∙ z),
        )
      ];
      why = λ c h e'. elim (ℕ_discrete c b) [
        | yes p ↦ inr (rw p (t.complete e))
        | no p ↦
            elim (v.settled.why c (omega arith)
              (sym (executed_old c (omega arith)) ∙ ground arith)) [
                | inl q ↦ inl q
                | inr z ↦ inr (same c (omega arith) ∙ z)
              ]
      ];
    };
  }

reset_block-missing :
    (net : Network) (b : ℕ) (s : Schedule)
    → (reset_inputs net b (net.block b).nin (cleared net b s)).0 ≡ false
    → reset_block net b s ≡ (reset_inputs net b (net.block b).nin (cleared net b s)).1
unfolding reset_block
reset_block-missing net b s e = ground arith

reset_block-full :
    (net : Network) (b : ℕ) (s : Schedule)
    → (reset_inputs net b (net.block b).nin (cleared net b s)).0 ≡ true
    → reset_block net b s
      ≡ (add_to_execution_list b (reset_inputs net b (net.block b).nin (cleared net b s)).1).1
unfolding reset_block
reset_block-full net b s e = ground arith

reset_block-Inv :
    {net : Network} {b : ℕ} {s : Schedule}
    → (net.block b).nin < 2 ^ 31
    → Inv net b (Done net []) s
    → Inv net (suc b) (Done net []) (reset_block net b s)
reset_block-Inv {net} {b} {s} small v =
    let n = (net.block b).nin in
    let t = reset_inputs-Reset net b n n (cleared net b s) (ground arith) small (omega arith) in
    let out = reset_inputs net b n (cleared net b s) in
    elim (Bool-cases out.0) [
      | inl all ↦
          rw (reset_block-full net b s all, add-new b out.1 (executed_new v t)) (reset-full v t all)
      | inr less ↦ rw (reset_block-missing net b s less) (reset-missing v t less)
    ]

-- The first pass starts with an empty list, and whatever stands in the flags.
pub first_pass-Inv :
    (net : Network) (n : ℕ) (s : Schedule)
    → ((c : ℕ) → (net.block c).nin < 2 ^ 31)
    → s.exec ≡ []
    → Inv net n (Done net []) (first_pass net n s)
unfolding first_pass failing
first_pass-Inv net zero s small e = record {
  listing = record {
    listed = λ c h. elim h [ ];
    flagged = rw e tt;
    distinct = rw e tt;
    ordered = rw e tt;
    measure = rw e refl;
  };
  counting = record {
    count = λ c h. elim h [ ];
    cause = λ c i h. elim h [ ];
    connected = λ c i h. elim h [ ];
    attached = λ c i h. elim h [ ];
  };
  settled = record { full = λ c h. elim h [ ]; why = λ c h. elim h [ ] };
}
first_pass-Inv net (suc b) s small e = reset_block-Inv (small b) (first_pass-Inv net b s small e)

-- A block with states and no feedthrough may join the list at any time.
added-pure :
    {net : Network} {m : ℕ} {done : ℕ → ℕ → Type 0} {s : Schedule} (b : ℕ)
    → Inv net m done s
    → b < m
    → s.executed b ≡ false
    → IsPure net b
    → Inv net m done (added b s)
unfolding added
added-pure b v h new p = record {
  listing = added-Listing b v.listing h new (inl p);
  counting = added-Counting b v.counting;
  settled = record {
    full = λ c k z. ground (arith, v.settled.full c k z);
    why = λ c k e. elim (ℕ_discrete c b) [
      | yes q ↦ inl (rw q p)
      | no q ↦ v.settled.why c k (ground arith)
    ];
  };
}

add_dynamic-skip :
    (net : Network) (b : ℕ) (s : Schedule)
    → (not (net.block b).d_feedthrough && (net.block b).dynamic) ≡ false
    → add_dynamic net b s ≡ s
unfolding add_dynamic
add_dynamic-skip net b s e = rw e

add_dynamic-add :
    (net : Network) (b : ℕ) (s : Schedule)
    → (not (net.block b).d_feedthrough && (net.block b).dynamic) ≡ true
    → add_dynamic net b s ≡ (add_to_execution_list b s).1
unfolding add_dynamic
add_dynamic-add net b s e = rw e

IsPure-of :
    (net : Network) (b : ℕ)
    → (not (net.block b).d_feedthrough && (net.block b).dynamic) ≡ true
    → IsPure net b
IsPure-of net b e = ground arith

add_dynamic-Inv :
    {net : Network} {m : ℕ} {done : ℕ → ℕ → Type 0} {s : Schedule} (b : ℕ)
    → Inv net m done s
    → b < m
    → Inv net m done (add_dynamic net b s)
add_dynamic-Inv {net} {m} {done} {s} b v h =
    elim (Bool-cases (not (net.block b).d_feedthrough && (net.block b).dynamic)) [
      | inr skip ↦ rw (add_dynamic-skip net b s skip) v
      | inl pure ↦ elim (Bool-cases (s.executed b)) [
        | inl old ↦ rw (add_dynamic-add net b s pure, add-old b s old) v
        | inr new ↦
            rw (add_dynamic-add net b s pure, add-new b s new)
              (added-pure b v h new (IsPure-of net b pure))
      ]
    ]

pub second_pass-Inv :
    {net : Network} {m : ℕ} {done : ℕ → ℕ → Type 0} (n : ℕ) {s : Schedule}
    → Inv net m done s
    → n ≤ m
    → Inv net m done (second_pass net n s)
unfolding second_pass
second_pass-Inv zero v h = v
second_pass-Inv (suc b) v h = add_dynamic-Inv b (second_pass-Inv b v (omega arith)) (omega arith)

-- The second pass has put every block with states and no feedthrough on the list.
pub second_pass-pure :
    {net : Network} {m : ℕ} {done : ℕ → ℕ → Type 0} (n : ℕ) {s : Schedule} (c : ℕ)
    → Inv net m done s
    → n ≤ m
    → c < n
    → IsPure net c
    → (second_pass net n s).executed c ≡ true
unfolding second_pass add_dynamic add_to_execution_list
second_pass-pure zero c v h k p = elim k [ ]
second_pass-pure (suc b) {s = s} c v h k p = elim (ℕ_discrete c b) [
  | yes q ↦ ground (arith, rw q at p.no_feedthrough, rw q at p.has_states)
  | no q ↦ ground (arith, second_pass-pure b {s = s} c v (omega arith) (omega arith) p)
]
