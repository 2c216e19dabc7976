-- ===== src/Libdyn/Schedule/Setup.antt =====
-- What `libdyn_setup_executionlist` computes, for a network whose ports are wired.
use mathlib.Core.Path.{subst}
use ortd.Prelude.{
  ℕ, ◌<◌, ◌≡◌, refl, sym, ◌∙◌, ◌⊎◌, inl, inr, true, false, List, [], InList, length, arith,
  Bool-cases, ◌==◌, ◌∷◌, dec_lt,
}
use ortd.Libdyn.{Network}
use ortd.Libdyn.Wiring.{IsWired, IsPure}
use ortd.Libdyn.Schedule.{
  Schedule, Outcome, ok, no_blocks, null_head, setup_executionlist, first_pass, second_pass,
  process, is_empty,
}
use ortd.Libdyn.Schedule.Invariant.{Inv}
use ortd.Libdyn.Schedule.Process.{Done, Delivered, Scheduled, process_lem}
use ortd.Libdyn.Schedule.Passes.{first_pass-Inv, second_pass-Inv, second_pass-pure}

empty-nil : (l : List ℕ) → is_empty l ≡ true → l ≡ []
unfolding is_empty
empty-nil [] e = refl
empty-nil (b ∷ l) e = cc

-- The network is wired, the list is empty at the start, and the fuel is beyond the junction lists
-- and the number of blocks.
pub record IsLoaded (net : Network) (consumers : ℕ → ℕ → List (ℕ × ℕ)) (links blocks : ℕ)
    (s : Schedule) : Type 0 where
  pub wired : IsWired net consumers
  pub short : (b o : ℕ) → length (consumers b o) < links
  pub enough : net.num_blocks < blocks
  pub start : s.exec ≡ []

abbrev pub ready : Network → Schedule → Schedule
ready net s = second_pass net net.num_blocks (first_pass net net.num_blocks s)

has_blocks : (net : Network) → 0 < net.num_blocks → (net.num_blocks == 0) ≡ false
has_blocks net h = ground arith

-- On a simulation without blocks the first pass goes through a null pointer.
pub setup-null_head :
    (net : Network) (links blocks : ℕ) (s : Schedule)
    → net.num_blocks ≡ 0
    → setup_executionlist net links blocks s ≡ null_head
unfolding setup_executionlist
setup-null_head net links blocks s h = rw h

setup-empty :
    (net : Network) (links blocks : ℕ) (s : Schedule)
    → 0 < net.num_blocks
    → is_empty (ready net s).exec ≡ true
    → setup_executionlist net links blocks s ≡ no_blocks
unfolding setup_executionlist
setup-empty net links blocks s h e = rw (has_blocks net h, e)

setup-process :
    (net : Network) (links blocks : ℕ) (s : Schedule)
    → 0 < net.num_blocks
    → is_empty (ready net s).exec ≡ false
    → setup_executionlist net links blocks s ≡ process net links blocks 0 (ready net s)
unfolding setup_executionlist
setup-process net links blocks s h e = rw (has_blocks net h, e)

module _ {net : Network} {consumers : ℕ → ℕ → List (ℕ × ℕ)} {links blocks : ℕ} {s : Schedule}
    (h : IsLoaded net consumers links blocks s) where
  pub ready-Inv : Inv net net.num_blocks (Done net []) (ready net s)
  ready-Inv =
      second_pass-Inv net.num_blocks (first_pass-Inv net net.num_blocks s h.wired.small h.start)
        (omega arith)

  process-Scheduled : Scheduled net (ready net s) (process net links blocks 0 (ready net s))
  process-Scheduled =
      process_lem h.wired links h.short blocks 0 [] (ready net s).exec (ready net s) refl refl
        ready-Inv (λ c i hc hi e m. elim m [ ]) (omega (arith, h.enough))

  pub setup-Scheduled :
      0 < net.num_blocks
      → (((ready net s).exec ≡ []) × (setup_executionlist net links blocks s ≡ no_blocks))
        ⊎ Scheduled net (ready net s) (setup_executionlist net links blocks s)
  setup-Scheduled k = elim (Bool-cases (is_empty (ready net s).exec)) [
    | inl e ↦ inl (empty-nil (ready net s).exec e, setup-empty net links blocks s k e)
    | inr e ↦ inr (rw (setup-process net links blocks s k e) process-Scheduled)
  ]

ok-injective : {s t : Schedule} → ok s ≡ ok t → s ≡ t
ok-injective e = cc

Scheduled-at :
    {net : Network} {start s : Schedule} {out : Outcome}
    → Scheduled net start out
    → out ≡ ok s
    → Scheduled net start (ok s)
Scheduled-at t e = rw e at t

ok-blocks :
    (net : Network) (links blocks : ℕ) (s t : Schedule)
    → setup_executionlist net links blocks s ≡ ok t
    → 0 < net.num_blocks
ok-blocks net links blocks s t e = elim (dec_lt 0 net.num_blocks) [
  | yes h ↦ h
  | no h ↦ cc (sym (setup-null_head net links blocks s (omega arith)) ∙ e)
]

-- What every list that is set up satisfies.
pub record Result (net : Network) (s : Schedule) : Type 0 where
  pub inv : Inv net net.num_blocks (Done net s.exec) s
  pub delivered : Delivered net s.exec s
  pub pure : (c : ℕ) → c < net.num_blocks → IsPure net c → InList c s.exec

module _ {net : Network} {consumers : ℕ → ℕ → List (ℕ × ℕ)} {links blocks : ℕ} {s t : Schedule}
    (h : IsLoaded net consumers links blocks s)
    (e : setup_executionlist net links blocks s ≡ ok t) where
  pub setup-Result : Result net t
  setup-Result = elim (setup-Scheduled h (ok-blocks net links blocks s t e)) [
    | inl (l, empty) ↦ cc (sym empty ∙ e)
    | inr sched ↦
        let same : sched.state ≡ t = ok-injective (sym sched.result ∙ e) in
        record {
          inv = subst (λ x. Inv net net.num_blocks (Done net x.exec) x) same sched.inv;
          delivered = subst (λ x. Delivered net x.exec x) same sched.delivered;
          pure = λ c k p.
              subst (λ x. InList c x.exec) same
                (sched.keeps c (
                  (ready-Inv h).listing.listed c k (
                    second_pass-pure net.num_blocks c
                      (first_pass-Inv net net.num_blocks s h.wired.small h.start) (omega arith) k
                      p)));
        }
  ]
