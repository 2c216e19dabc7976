-- ===== src/Libdyn/Schedule/Walk.antt =====
-- The loops over a junction list and over the outputs of a block: every input that the block feeds
-- becomes available.
use mathlib.Core.List.{append-nil, append_assoc}
use ortd.Prelude.{
  ℕ, zero, suc, ◌<◌, ◌≡◌, ◌≢◌, refl, sym, ap, ◌∙◌, inl, inr, true, List, [], ◌∷◌, ◌++◌, All, InList,
  Distinct, InList-left, length, arith, Bool-cases,
}
use ortd.Libdyn.{Network, Junction}
use ortd.Libdyn.Wiring.{Linked}
use ortd.Libdyn.Schedule.{Schedule, Outcome, ok, walk}
use ortd.Libdyn.Schedule.Invariant.{Inv}
use ortd.Libdyn.Schedule.Supply.{Fresh}
use ortd.Libdyn.Schedule.Mark.{Marked, mark_lem}

-- What a loop over the inputs of `l` has done.
pub record Walked (net : Network) (m : ℕ) (done : ℕ → ℕ → Type 0) (s : Schedule) (l : List (ℕ × ℕ))
    (out : Outcome) : Type 0 where
  pub state : Schedule
  pub result : out ≡ ok state
  pub inv : Inv net m done state
  pub extra : List ℕ
  pub grows : state.exec ≡ s.exec ++ extra
  pub marked : All (λ e. state.available e.0 e.1 ≡ true) l
  pub keeps : (b j : ℕ) → s.available b j ≡ true → state.available b j ≡ true

-- The inputs of `l` that the loop may mark.
abbrev pub Markable : Network → ℕ → (ℕ → ℕ → Type 0) → Schedule → List (ℕ × ℕ) → Type 0
Markable net m done s l = All (λ e. Fresh net m s e.0 e.1 × done e.0 e.1) l

-- Marking one input leaves the others to be marked.
Markable-rest :
    {net : Network} {m : ℕ} {done : ℕ → ℕ → Type 0} {s : Schedule} {c i : ℕ} {out : Outcome}
    (l : List (ℕ × ℕ)) (k : Marked net m done s c i out)
    → All (λ e. (c, i) ≢ e) l
    → Markable net m done s l
    → Markable net m done k.state l
Markable-rest [] k ne h = tt
Markable-rest {c = c} {i = i} ((b, j) ∷ l) k ne h = (
  (
    record {
      block_in = h.0.0.block_in;
      port_in = h.0.0.port_in;
      small = h.0.0.small;
      connected = h.0.0.connected;
      missing = elim (Bool-cases (k.state.available b j)) [
        | inr no_ ↦ no_
        | inl have ↦ elim (k.others b j have) [
          | inl p ↦ absurd (ne.0 (λ t. (sym p.0 t, sym p.1 t)))
          | inr old ↦ cc (sym old ∙ h.0.0.missing)
        ]
      ];
    },
    h.0.1,
  ),
  Markable-rest l k ne.1 h.1,
)

pub InList-grown :
    {a : ℕ} {xs ys : List ℕ} (extra : List ℕ) → ys ≡ xs ++ extra → InList a xs → InList a ys
InList-grown extra e m = rw e (InList-left extra m)

pub walk_lem :
    {net : Network} {m : ℕ} {done : ℕ → ℕ → Type 0} {s : Schedule} (l : List (ℕ × ℕ)) (fuel : ℕ)
    (cur : Junction)
    → Linked net l cur
    → length l < fuel
    → Inv net m done s
    → Markable net m done s l
    → Distinct l
    → ((b j : ℕ) → done b j → InList (net.in_port b j).pre s.exec)
    → Walked net m done s l (walk net fuel cur s)
unfolding walk
walk_lem l zero cur k h v f d covers = elim h [ ]
walk_lem {s = s} [] (suc fuel) cur k h v f d covers = rw k (record {
  state = s;
  result = refl;
  inv = v;
  extra = [];
  grows = sym (append-nil s.exec);
  marked = tt;
  keeps = λ b j e. e;
})
walk_lem {net} {m} {done} {s} ((c, i) ∷ l) (suc fuel) cur k h v f d covers =
    let first = mark_lem c i v f.0.0 f.0.1 covers in
    let rest =
      walk_lem {s = first.state} l fuel (net.in_port c i).next_juncture k.1 (omega arith) first.inv
        (Markable-rest l first d.0 f.1) d.1
        (λ b j p. InList-grown first.extra first.grows (covers b j p)) in
    rw k.0 (
      rw first.result (record {
        state = rest.state;
        result = rest.result;
        inv = rest.inv;
        extra = first.extra ++ rest.extra;
        grows =
            rest.grows
            ∙ ap (λ x. x ++ rest.extra) first.grows
            ∙ append_assoc s.exec first.extra rest.extra;
        marked = (rest.keeps c i first.marked, rest.marked);
        keeps = λ b j e. rest.keeps b j (first.keeps b j e);
      }))
