-- ===== src/Libdyn/Schedule/Outputs.antt =====
-- The loop over the outputs of the block that the execution list has reached.
use mathlib.Core.Path.{subst}
use mathlib.Core.List.{append-nil, append_assoc}
use native.Mathlib.Decide.{ℕ_discrete}
use ortd.Prelude.{
  ℕ, zero, suc, ◌<◌, ◌≡◌, refl, sym, ap, ◌∙◌, ◌⊎◌, inl, inr, true, false, List, [], ◌∷◌, ◌++◌, All,
  InList, All-map, length, arith, Bool-cases,
}
use ortd.Libdyn.{Network, extern}
use ortd.Libdyn.Wiring.{IsWired, IsFedBy}
use ortd.Libdyn.Schedule.{Schedule, Outcome, ok, mark_outputs}
use ortd.Libdyn.Schedule.Invariant.{Inv}
use ortd.Libdyn.Schedule.Walk.{walk_lem, Markable, InList-grown}

-- The block that feeds the input has been dealt with: it is one of `d`, or it is `b` and the
-- output is one of the first `o`.
abbrev pub Stage : Network → List ℕ → ℕ → ℕ → ℕ → ℕ → Type 0
Stage net d b o c i =
    InList (net.in_port c i).pre d ⊎ (((net.in_port c i).pre ≡ b) × ((net.in_port c i).out_nr < o))

pub Inv-map :
    {net : Network} {m : ℕ} {done done' : ℕ → ℕ → Type 0} {s : Schedule}
    → ((c i : ℕ)
        → c < m
        → i < (net.block c).nin
        → (net.in_port c i).intype ≡ extern ⊎ done c i
        → (net.in_port c i).intype ≡ extern ⊎ done' c i)
    → Inv net m done s
    → Inv net m done' s
Inv-map f v = record {
  listing = v.listing;
  counting = record {
    count = v.counting.count;
    cause = λ c i hc hi e. f c i hc hi (v.counting.cause c i hc hi e);
    connected = v.counting.connected;
    attached = v.counting.attached;
  };
  settled = v.settled;
}

Stage-suc :
    (net : Network) (d : List ℕ) (b o c i : ℕ) → Stage net d b o c i → Stage net d b (suc o) c i
Stage-suc net d b o c i (inl m) = inl m
Stage-suc net d b o c i (inr p) = inr (p.0, omega (arith, p.1))

Stage-suc_cause :
    (net : Network) (d : List ℕ) (b o c i : ℕ)
    → (net.in_port c i).intype ≡ extern ⊎ Stage net d b o c i
    → (net.in_port c i).intype ≡ extern ⊎ Stage net d b (suc o) c i
Stage-suc_cause net d b o c i (inl e) = inl e
Stage-suc_cause net d b o c i (inr p) = inr (Stage-suc net d b o c i p)

-- An input that output `o` of block `b` feeds is not available before that output's turn.
not_yet :
    {net : Network} {d : List ℕ} {b o : ℕ} {s : Schedule} (e : ℕ × ℕ)
    → Inv net net.num_blocks (Stage net d b o) s
    → ¬ InList b d
    → IsFedBy net b o e
    → s.available e.0 e.1 ≡ false
not_yet {net} {d} {b} {o} {s} (c, i) v new f = elim (Bool-cases (s.available c i)) [
  | inr no_ ↦ no_
  | inl have ↦ elim (v.counting.cause c i f.block_in f.port_in have) [
    | inl x ↦ cc (sym f.is_direct ∙ x)
    | inr p ↦ elim p [
      | inl k ↦ absurd (new (subst (λ a. InList a d) f.pre k))
      | inr q ↦ absurd (omega (arith, q.1, f.out_nr))
    ]
  ]
]

to_mark :
    {net : Network} {d : List ℕ} {b o : ℕ} {s : Schedule} {consumers : ℕ → ℕ → List (ℕ × ℕ)}
    → IsWired net consumers
    → Inv net net.num_blocks (Stage net d b o) s
    → ¬ InList b d
    → (l : List (ℕ × ℕ)) → All (IsFedBy net b o) l
    → Markable net net.num_blocks (Stage net d b (suc o)) s l
to_mark w v new [] h = tt
to_mark {o = o} w v new ((c, i) ∷ l) h = (
  (
    record {
      block_in = h.0.block_in;
      port_in = h.0.port_in;
      small = w.small c;
      connected = λ e. cc (sym h.0.is_direct ∙ e);
      missing = not_yet (c, i) v new h.0;
    },
    inr (h.0.pre, omega (arith, h.0.out_nr)),
  ),
  to_mark w v new l h.1,
)

-- What the loop has done for the first `n` outputs of block `b`.
pub record Sent (net : Network) (consumers : ℕ → ℕ → List (ℕ × ℕ)) (d : List ℕ) (b n : ℕ)
    (s : Schedule) (out : Outcome) : Type 0 where
  pub state : Schedule
  pub result : out ≡ ok state
  pub inv : Inv net net.num_blocks (Stage net d b n) state
  pub extra : List ℕ
  pub grows : state.exec ≡ s.exec ++ extra
  pub delivered : (o : ℕ) → o < n → All (λ e. state.available e.0 e.1 ≡ true) (consumers b o)
  pub keeps : (c j : ℕ) → s.available c j ≡ true → state.available c j ≡ true

Stage-InList :
    (net : Network) {d : List ℕ} {b o : ℕ} {exec : List ℕ}
    → ((a : ℕ) → InList a d → InList a exec)
    → InList b exec
    → (c j : ℕ) → Stage net d b o c j
    → InList (net.in_port c j).pre exec
Stage-InList net f h c j (inl m) = f _ m
Stage-InList net {exec = exec} f h c j (inr p) = subst (λ a. InList a exec) (sym p.0) h

module _ {net : Network} {consumers : ℕ → ℕ → List (ℕ × ℕ)} (w : IsWired net consumers) (fuel : ℕ)
    (short : (b o : ℕ) → length (consumers b o) < fuel) where
  pub mark_outputs_lem :
      {d : List ℕ} {b : ℕ} {s : Schedule} (n : ℕ)
      → Inv net net.num_blocks (Stage net d b 0) s
      → ¬ InList b d
      → ((a : ℕ) → InList a d → InList a s.exec)
      → InList b s.exec
      → Sent net consumers d b n s (mark_outputs net fuel b n s)
  unfolding mark_outputs
  mark_outputs_lem {s = s} zero v new sub here_ = record {
    state = s;
    result = refl;
    inv = v;
    extra = [];
    grows = sym (append-nil s.exec);
    delivered = λ o h. elim h [ ];
    keeps = λ c j e. e;
  }
  mark_outputs_lem {d} {b} {s} (suc n) v new sub here_ =
      let before = mark_outputs_lem n v new sub here_ in
      let walked =
        walk_lem {done = Stage net d b (suc n)} (consumers b n) fuel (net.out_port b n).post
          (w.links b n) (short b n)
          (Inv-map (λ c i hc hi. Stage-suc_cause net d b n c i) before.inv)
          (to_mark w before.inv new (consumers b n) (w.sound b n)) (w.distinct b n)
          (Stage-InList net (λ a m. InList-grown before.extra before.grows (sub a m))
            (InList-grown before.extra before.grows here_)) in
      rw before.result (record {
        state = walked.state;
        result = walked.result;
        inv = walked.inv;
        extra = before.extra ++ walked.extra;
        grows =
            walked.grows
            ∙ ap (λ x. x ++ walked.extra) before.grows
            ∙ append_assoc s.exec before.extra walked.extra;
        delivered = λ o h. elim (ℕ_discrete o n) [
          | yes p ↦ rw p walked.marked
          | no p ↦
              All-map (consumers b o) (λ e. walked.keeps e.0 e.1) (before.delivered o (omega arith))
        ];
        keeps = λ c j e. walked.keeps c j (before.keeps c j e);
      })
