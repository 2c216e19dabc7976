-- ===== src/Blocks/Counters/Tests.antt =====
-- Runs of the counters, and their theorems at inputs that meet the hypotheses.
use ortd.Prelude.{◌-◌, ◌≡◌, refl, true, false, [], ◌∷◌, pos, ◌+ℤ◌, word}
use ortd.Blocks.Samples.{whole}
use ortd.Blocks.Counters.{modcounter_update, modcounter_run, counter_update, integrator_outputs}

counts_on : modcounter_run (pos 1) (pos 3) (true ∷ true ∷ false ∷ []) (pos 1) ≡ pos 0
unfolding modcounter_run modcounter_update ◌+ℤ◌
counts_on = refl

wraps : integrator_outputs 2 (word - 1) ≡ 1
unfolding integrator_outputs
wraps = refl

resets : counter_update whole (pos 2) (pos 1) (pos 7) (pos 3) ≡ pos 7
unfolding counter_update
resets = refl
