-- ===== src/Libdyn/Schedule/Supply.antt =====
-- An input that becomes available: what `libdyn_setup_executionlist_setandcheck_avail` keeps.
use native.Mathlib.Decide.{ℕ_discrete}
use mathlib.Core.Path.{subst₂}
use ortd.Prelude.{
  ℕ, suc, ◌<◌, ◌^◌, ◌≡◌, ◌≢◌, sym, ◌∙◌, failing-le, ◌⊎◌, inl, inr, true, false, failing,
  failing-update, failing-cong, update, update_at, arith, sub32,
}
use ortd.Libdyn.{Network, undef}
use ortd.Libdyn.Schedule.{Schedule}
use ortd.Libdyn.Schedule.Invariant.{Counting}

-- The state after `libdyn_setup_executionlist_setandcheck_avail`.
unfoldable pub supplied : ℕ → ℕ → Schedule → Schedule
supplied c i s = record s {
  available = update_at s.available c i true;
  remaining = update s.remaining c (sub32 (s.remaining c) 1);
}

-- The input that becomes available is one that was not.
pub record Fresh (net : Network) (m : ℕ) (s : Schedule) (c i : ℕ) : Type 0 where
  pub block_in : c < m
  pub port_in : i < (net.block c).nin
  pub small : (net.block c).nin < 2 ^ 31
  pub connected : (net.in_port c i).intype ≢ undef
  pub missing : s.available c i ≡ false

pub failing-supplied :
    {net : Network} {m : ℕ} {s : Schedule} {c i : ℕ}
    → Fresh net m s c i
    → failing (net.block c).nin (s.available c)
      ≡ suc (failing (net.block c).nin ((supplied c i s).available c))
unfolding supplied
failing-supplied {net} {m} {s} {c} {i} f =
    failing-update (net.block c).nin (s.available c) (λ q. update_at s.available c i true c q) i
      f.port_in f.missing (ground arith) (λ q ne. ground arith)

pub failing-supplied_ne :
    (s : Schedule) (n c i b : ℕ)
    → b ≢ c
    → failing n (s.available b) ≡ failing n ((supplied c i s).available b)
unfolding supplied
failing-supplied_ne s n c i b ne =
    failing-cong n (s.available b) (λ q. update_at s.available c i true b q) (λ q h. ground arith)

pub remaining-supplied :
    (s : Schedule) (c i n : ℕ)
    → s.remaining c ≡ suc n
    → n < 2 ^ 31
    → (supplied c i s).remaining c ≡ n
unfolding supplied
remaining-supplied s c i n e h = ground arith

pub remaining-supplied_ne :
    (s : Schedule) (c i b : ℕ) → b ≢ c → (supplied c i s).remaining b ≡ s.remaining b
unfolding supplied
remaining-supplied_ne s c i b ne = ground arith

pub available-supplied : (s : Schedule) (c i : ℕ) → (supplied c i s).available c i ≡ true
unfolding supplied
available-supplied s c i = ground arith

-- Only one input has become available.
pub available-supplied_cases :
    (s : Schedule) (c i b j : ℕ)
    → (supplied c i s).available b j ≡ true
    → ((b ≡ c) × (j ≡ i)) ⊎ (s.available b j ≡ true)
unfolding supplied
available-supplied_cases s c i b j e = ground arith

pub available-supplied_keeps :
    (s : Schedule) (c i b j : ℕ) → s.available b j ≡ true → (supplied c i s).available b j ≡ true
unfolding supplied
available-supplied_keeps s c i b j e = ground arith

pub supplied-Counting :
    {net : Network} {m : ℕ} {done : ℕ → ℕ → Type 0} {s : Schedule} {c i : ℕ}
    → Counting net m done s
    → Fresh net m s c i
    → done c i
    → Counting net m done (supplied c i s)
supplied-Counting {net} {m} {done} {s} {c} {i} k f d = record {
  count = λ b hb. elim (ℕ_discrete b c) [
    | yes p ↦ rw p here_count
    | no p ↦
        remaining-supplied_ne s c i b p
        ∙ k.count b hb
        ∙ failing-supplied_ne s (net.block b).nin c i b p
  ];
  cause = λ b j hb hj e. elim (available-supplied_cases s c i b j e) [
    | inl p ↦ inr (subst₂ done (sym p.0) (sym p.1) d)
    | inr old ↦ k.cause b j hb hj old
  ];
  connected = λ b j hb hj e. elim (available-supplied_cases s c i b j e) [
    | inl p ↦ rw (p.0, p.1) f.connected
    | inr old ↦ k.connected b j hb hj old
  ];
  attached = λ b j hb hj e. available-supplied_keeps s c i b j (k.attached b j hb hj e);
}
  where
    here_count :
        (supplied c i s).remaining c ≡ failing (net.block c).nin ((supplied c i s).available c)
    here_count =
        remaining-supplied s c i _ (k.count c f.block_in ∙ failing-supplied f)
          (omega (arith, f.small, failing-supplied f, failing-le (net.block c).nin (s.available c)))
