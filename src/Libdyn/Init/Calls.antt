-- ===== src/Libdyn/Init/Calls.antt =====
-- The calls that the loops over the blocks make, as sequences.
use ortd.Prelude.{
  ℕ, zero, suc, ◌<◌, ◌≡◌, refl, Bool, true, false, List, [], ◌∷◌, ◌++◌, if◌then◌else◌, arith,
}
use ortd.Libdyn.Init.{Flag, destructor, postdestructor}

-- One call after others.
abbrev pub then_call : Bool → Flag → ℕ → List (Flag × ℕ) → List (Flag × ℕ)
then_call t flag b cs = if t then cs ++ (flag, b) ∷ [] else cs

-- The calls with one flag of the blocks 0 to n - 1 that pass a test, in this order.
unfoldable pub calls : Flag → (ℕ → Bool) → ℕ → List (Flag × ℕ)
calls flag f zero = []
calls flag f (suc b) = then_call (f b) flag b (calls flag f b)

-- All blocks, and the blocks from p on.
abbrev pub every : ℕ → Bool
every b = true

pub calls-cong :
    (flag : Flag) (f g : ℕ → Bool) (n : ℕ)
    → ((b : ℕ) → b < n → f b ≡ g b)
    → calls flag f n ≡ calls flag g n
unfolding calls
calls-cong flag f g zero h = refl
calls-cong flag f g (suc b) h =
    rw (h b (omega arith), calls-cong flag f g b (λ c k. h c (omega arith))) refl

-- The calls of a deletion: the destructor of every marked block, then its late destructor.
unfoldable pub deletion : ℕ → (ℕ → Bool) → List (Flag × ℕ)
deletion n f = calls destructor f n ++ calls postdestructor f n

pub deletion-cong :
    (n : ℕ) (f g : ℕ → Bool) → ((b : ℕ) → b < n → f b ≡ g b) → deletion n f ≡ deletion n g
unfolding deletion
deletion-cong n f g h = rw (calls-cong destructor f g n h, calls-cong postdestructor f g n h) refl

-- Where no block is marked, nothing is called.
calls_none :
    (flag : Flag) (f : ℕ → Bool) (n : ℕ) → ((b : ℕ) → b < n → f b ≡ false) → calls flag f n ≡ []
unfolding calls
calls_none flag f zero h = refl
calls_none flag f (suc b) h =
    rw (h b (omega arith), calls_none flag f b (λ c k. h c (omega arith))) refl

pub deletion_none : (n : ℕ) (f : ℕ → Bool) → ((b : ℕ) → b < n → f b ≡ false) → deletion n f ≡ []
unfolding deletion
deletion_none n f h = rw (calls_none destructor f n h, calls_none postdestructor f n h) refl

module _ {W : Type 0} (comp_func : Flag → ℕ → W → Bool × W) where
  -- The world after a sequence of calls, whatever they return.
  unfoldable pub run : List (Flag × ℕ) → W → W
  run [] w = w
  run ((flag, b) ∷ t) w = run t (comp_func flag b w).1

  pub run-append : (t u : List (Flag × ℕ)) (w : W) → run (t ++ u) w ≡ run u (run t w)
  unfolding run
  run-append [] u w = refl
  run-append ((flag, b) ∷ t) u w = run-append t u (comp_func flag b w).1

  -- One more call.
  pub run_step :
      (flag : Flag) (f : ℕ → Bool) (b : ℕ) (w : W)
      → f b ≡ true
      → run (calls flag f (suc b)) w ≡ (comp_func flag b (run (calls flag f b) w)).1
  unfolding run calls
  run_step flag f b w e = rw (e) (run-append (calls flag f b) ((flag, b) ∷ []) w)

  pub run_skip :
      (flag : Flag) (f : ℕ → Bool) (b : ℕ) (w : W)
      → f b ≡ false
      → run (calls flag f (suc b)) w ≡ run (calls flag f b) w
  unfolding calls
  run_skip flag f b w e = rw e refl
