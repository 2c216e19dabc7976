-- ===== src/Libdyn/Create/Outcome.antt =====
-- How `libdyn_new_block__` ends: with the new block on the lists, or with a reason and no block.
use ortd.Prelude.{ℕ, suc, ◌<◌, ◌≡◌, ◌≢◌, ◌⊎◌, Bool, true, not, ◌&&◌, ◌==◌}
use ortd.Libdyn.Create.{unconfigured, NewBlock}

-- A loop over ports that keeps `true` until a port is not configured.
record IsScan (scan : ℕ → Bool) (datatype : ℕ → ℕ) : Type 0 where
  start : scan 0 ≡ true
  next : (i : ℕ) → scan (suc i) ≡ (scan i && not (datatype i == unconfigured))

-- All ports are configured, or one is not.
abbrev pub AllConfigured : ℕ → (ℕ → ℕ) → Type 0
AllConfigured n datatype = (i : ℕ) → i < n → datatype i ≢ unconfigured

abbrev pub OneUnconfigured : ℕ → (ℕ → ℕ) → Type 0
OneUnconfigured n datatype = (i : ℕ) × (i < n) × (datatype i ≡ unconfigured)

-- Why no block is created: the computational function fails, a port is not configured, or not all
-- caches of a block with its own output caches are.
abbrev pub IsRefused : Bool → NewBlock → Type 0
IsRefused failed b =
    (failed ≡ true)
    ⊎ OneUnconfigured b.nin (λ i. (b.inlist i).datatype)
    ⊎ OneUnconfigured b.nout (λ i. (b.outlist i).datatype)
    ⊎ ((b.own_outcache ≡ true) × (b.own_outcache_toconfigure ≢ 0))
