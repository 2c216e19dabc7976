-- ===== src/Blocks/Delay/Tests.antt =====
-- Runs of the delays.
use ortd.Prelude.{ℕ, ◌≡◌, refl, none, some, [], ◌∷◌, pos, negsuc}
use ortd.Blocks.Delay.{
  Delay, delay_init, delay_run, delay_outputs, delay_update, cleared, vectordelay_reset,
}
use ortd.Blocks.Delay.Queue.{delay_run-init}

two_back :
    delay_run {A = ℕ} 2 (5 ∷ 6 ∷ 7 ∷ []) (cleared 0 2)
    ≡ some (0 ∷ 0 ∷ 5 ∷ [], record { buf_position_read = 1; rot_buf = 7 ∷ 6 ∷ [] })
unfolding delay_run delay_outputs delay_update
two_back = refl

no_length : delay_init {A = ℕ} 0 (negsuc 4) ≡ none
unfolding delay_init
no_length = refl

reset_first : vectordelay_reset {A = ℕ} 0 2 (8 ∷ 9 ∷ []) ≡ some (0 ∷ 0 ∷ [], 0 ∷ 9 ∷ [])
unfolding vectordelay_reset
reset_first = refl

delay_run-init_example :
    (d d' : Delay ℕ) × (delay_init 0 (pos 2) ≡ some d)
    × (delay_run 2 (5 ∷ 6 ∷ 7 ∷ []) d ≡ some (0 ∷ 0 ∷ 5 ∷ [], d'))
delay_run-init_example = delay_run-init 0 1 (5 ∷ 6 ∷ 7 ∷ [])
