-- ===== src/Blocks/Counters/Modulo.antt =====
-- The counter modulo a number.
use native.Mathlib.Nat.{mod-eq_of_lt, mod_self, mod-add-mod, mod-lt}
use ortd.Prelude.{
  ℕ, ◌+◌, ◌%◌, ◌<◌, ◌≡◌, refl, ◌∙◌, ap, Bool, true, false, List, [], ◌∷◌, arith, pos, ◌+ℤ◌,
  if◌then◌else◌, dec_lt, ℤ,
}
use ortd.Blocks.Counters.{modcounter_update, modcounter_run, modcounter_init}

-- How many of the inputs are above 0.
abbrev pub counted : List Bool → ℕ
counted [] = 0
counted (c ∷ cs) = (if c then 1 else 0) + counted cs

update-next :
    (i : ℤ) (m s : ℕ) → s < m → modcounter_update i (pos m) true (pos s) ≡ pos ((s + 1) % m)
unfolding modcounter_update ◌+ℤ◌
update-next i m s h = elim (dec_lt (s + 1) m) [
  | yes p ↦ ground (arith, mod-eq_of_lt p)
  | no p ↦ let e : s + 1 ≡ m = omega arith in ground (arith, mod_self m)
]

update-same : (i : ℤ) (m s : ℕ) → modcounter_update i (pos m) false (pos s) ≡ pos s
unfolding modcounter_update
update-same i m s = refl

run-from :
    (i : ℤ) (m s : ℕ) (cs : List Bool)
    → s < m
    → modcounter_run i (pos m) cs (pos s) ≡ pos ((s + counted cs) % m)
unfolding modcounter_run
run-from i m s [] h = ground (arith, mod-eq_of_lt {n = s + 0} {m = m} (omega arith))
run-from i m s (true ∷ cs) h = rw (update-next i m s h) (
    run-from i m ((s + 1) % m) cs (mod-lt (s + 1) {m = m} (omega arith))
    ∙ ap pos (mod-add-mod (s + 1) m (counted cs) ∙ ap (λ k. k % m) (omega arith)))
run-from i m s (false ∷ cs) h =
    rw (update-same i m s) (run-from i m s cs h ∙ ap (λ k. pos (k % m)) (omega arith))

-- From an initial state below the modulus the counter is at the number of inputs above 0, added to
-- the initial state, modulo the modulus.
pub modcounter_lem :
    (i m : ℕ) (cs : List Bool)
    → i < m
    → modcounter_run (pos i) (pos m) cs (modcounter_init (pos i) (pos m))
      ≡ pos ((i + counted cs) % m)
unfolding modcounter_init
modcounter_lem i m cs h = run-from (pos i) m i cs h
