-- ===== src/Libdyn/Schedule/Invariant.antt =====
-- The invariant of the scheduling algorithm, and a block that joins the execution list.
use ortd.Prelude.{
  ℕ, ◌+◌, ◌<◌, ◌≡◌, ◌≢◌, sym, ap, ◌⊎◌, inl, inr, true, false, [], ◌∷◌, ◌++◌, All, InList, here,
  Distinct, All-append, Distinct-snoc, All-map, InList-left, InList-right, length, length-append,
  failing, failing-update, update, arith,
}
use ortd.Libdyn.{Network, undef, extern}
use ortd.Libdyn.Wiring.{IsPure}
use ortd.Libdyn.Schedule.{Schedule, add_to_execution_list}
use ortd.Libdyn.Schedule.Order.{Ready, Ordered, Ordered-snoc}

-- The execution list and the flag `block_executed`, for the blocks below `m`.
pub record Listing (net : Network) (m : ℕ) (s : Schedule) : Type 0 where
  pub listed : (c : ℕ) → c < m → s.executed c ≡ true → InList c s.exec
  pub flagged : All (λ c. (c < m) × (s.executed c ≡ true)) s.exec
  pub distinct : Distinct s.exec
  pub ordered : Ordered net [] s.exec
  pub measure : length s.exec + failing m s.executed ≡ m

-- The counters and flags of the inputs: an available one has a cause.
pub record Counting (net : Network) (m : ℕ) (done : ℕ → ℕ → Type 0) (s : Schedule) : Type 0 where
  pub count : (c : ℕ) → c < m → s.remaining c ≡ failing (net.block c).nin (s.available c)
  pub cause :
      (c i : ℕ)
      → c < m
      → i < (net.block c).nin
      → s.available c i ≡ true
      → ((net.in_port c i).intype ≡ extern) ⊎ done c i
  pub connected :
      (c i : ℕ)
      → c < m
      → i < (net.block c).nin
      → s.available c i ≡ true
      → (net.in_port c i).intype ≢ undef
  pub attached :
      (c i : ℕ)
      → c < m
      → i < (net.block c).nin
      → (net.in_port c i).intype ≡ extern
      → s.available c i ≡ true

-- The blocks on the list are those with all inputs available, and those with states that need none.
pub record Settled (net : Network) (m : ℕ) (s : Schedule) : Type 0 where
  pub full : (c : ℕ) → c < m → failing (net.block c).nin (s.available c) ≡ 0 → s.executed c ≡ true
  pub why :
      (c : ℕ)
      → c < m
      → s.executed c ≡ true
      → IsPure net c ⊎ (failing (net.block c).nin (s.available c) ≡ 0)

pub record Inv (net : Network) (m : ℕ) (done : ℕ → ℕ → Type 0) (s : Schedule) : Type 0 where
  pub listing : Listing net m s
  pub counting : Counting net m done s
  pub settled : Settled net m s

unfoldable pub added : ℕ → Schedule → Schedule
added c s = record s { exec = s.exec ++ c ∷ []; executed = update s.executed c true }

pub add-new :
    (c : ℕ) (s : Schedule) → s.executed c ≡ false → add_to_execution_list c s ≡ (true, added c s)
unfolding add_to_execution_list added
add-new c s e = rw e

pub add-old : (c : ℕ) (s : Schedule) → s.executed c ≡ true → add_to_execution_list c s ≡ (false, s)
unfolding add_to_execution_list
add-old c s e = rw e

pub executed-added :
    (c : ℕ) (s : Schedule) {b : ℕ} → (added c s).executed b ≡ true → (c ≡ b) ⊎ (s.executed b ≡ true)
unfolding added
executed-added c s {b} e = ground arith

pub added-Listing :
    {net : Network} {m : ℕ} {s : Schedule} (c : ℕ)
    → Listing net m s
    → c < m
    → s.executed c ≡ false
    → Ready net s.exec c
    → Listing net m (added c s)
unfolding added
added-Listing {net} {m} {s} c l h new r = record {
  listed = λ b hb e. elim (executed-added c s {b = b} e) [
    | inl p ↦ InList-right s.exec (here (sym p))
    | inr old ↦ InList-left (c ∷ []) (l.listed b hb old)
  ];
  flagged =
      All-append (λ b. (b < m) × (update s.executed c true b ≡ true)) s.exec (c ∷ [])
        (All-map s.exec (λ b f. (f.0, ground arith)) l.flagged) ((h, ground arith), tt);
  distinct =
      Distinct-snoc s.exec c (All-map s.exec (λ b f e. cc (ap s.executed e)) l.flagged) l.distinct;
  ordered = Ordered-snoc net s.exec c r l.ordered;
  measure = omega (
    arith,
    l.measure,
    length-append s.exec (c ∷ []),
    failing-update m s.executed (update s.executed c true) c h new (ground arith)
        (λ i ne. ground arith),
  );
}
