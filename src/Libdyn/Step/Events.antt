-- ===== src/Libdyn/Step/Events.antt =====
-- The clocks: which events are active after `libdyn_clock_event_generator`.
use ortd.Prelude.{
  ℕ, suc, ◌%◌, ◌<◌, ◌≡◌, refl, ap, ◌∙◌, inl, inr, Bool, true, false, List, [], ◌∷◌, ◌==◌,
  if◌then◌else◌, arith, Bool-cases,
}
use ortd.Libdyn.Step.{Clocks, event_trigger, tick, generate_from, clock_event_generator}

-- Clock e of the list, the first of which has the number i, is due.
abbrev pub due : ℕ → ℕ → List ℕ → ℕ → Bool
due i stepcounter [] e = false
due i stepcounter (mult ∷ rest) e =
    let later = due (suc i) stepcounter rest e in if e == i then stepcounter % mult == 0 else later

due_later : (i j k : ℕ) (ms : List ℕ) → k < i → due i j ms k ≡ false
due_later i j k [] h = refl
due_later i j k (m ∷ ms) h = ground (arith, due_later (suc i) j k ms (omega arith))

first_due :
    (i e : ℕ) (d a : Bool)
    → (if d then true else (if e == i then true else a))
      ≡ (if (if e == i then true else d) then true else a)
first_due i e true a = ground arith
first_due i e false a = ground arith

first_idle :
    (i e : ℕ) (d a : Bool)
    → (e ≡ i → d ≡ false)
    → (if d then true else a) ≡ (if (if e == i then false else d) then true else a)
first_idle i e d a h = ground (arith, h)

tick_event :
    (i m : ℕ) (ms : List ℕ) (s : Clocks) (e : ℕ)
    → (if due (suc i) s.stepcounter ms e then true else (tick i m s).event_active e)
      ≡ (if due i s.stepcounter (m ∷ ms) e then true else s.event_active e)
unfolding tick event_trigger
tick_event i m ms s e = elim (Bool-cases (s.stepcounter % m == 0)) [
  | inl p ↦ rw p (first_due i e (due (suc i) s.stepcounter ms e) (s.event_active e))
  | inr p ↦ rw p (
      first_idle i e (due (suc i) s.stepcounter ms e) (s.event_active e)
        (λ q. due_later (suc i) s.stepcounter e ms (omega arith)))
]

tick_stepcounter : (i m : ℕ) (s : Clocks) → (tick i m s).stepcounter ≡ s.stepcounter
unfolding tick event_trigger
tick_stepcounter i m s = elim (Bool-cases (s.stepcounter % m == 0)) [
  | inl p ↦ rw p refl
  | inr p ↦ rw p refl
]

generate_lem :
    (i : ℕ) (ms : List ℕ) (s : Clocks) (e : ℕ)
    → (generate_from i ms s).event_active e
      ≡ (if due i s.stepcounter ms e then true else s.event_active e)
unfolding generate_from
generate_lem i [] s e = refl
generate_lem i (m ∷ ms) s e =
    generate_lem (suc i) ms (tick i m s) e
    ∙ ap (λ j. if due (suc i) j ms e then true else (tick i m s).event_active e)
        (tick_stepcounter i m s)
    ∙ tick_event i m ms s e

-- After the generator an event is active exactly if it was before, or if the clock with its number
-- is there and its multiplier divides the number of steps.
pub clock_event_generator_lem :
    (s : Clocks) (e : ℕ)
    → (clock_event_generator s).event_active e
      ≡ (if due 0 s.stepcounter s.clock_multiplier e then true else s.event_active e)
unfolding clock_event_generator
clock_event_generator_lem s e = generate_lem 0 s.clock_multiplier s e
