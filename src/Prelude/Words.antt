-- ===== src/Prelude/Words.antt =====
-- 32-bit machine words: `unsigned int` and `int` as bit patterns below 2 ^ 32.
use Prim.Native.Nat.{ℕ, ◌+◌, ◌-◌, ◌%◌, ◌^◌}
use mathlib.Core.Bool.{Bool}
use ortd.Prelude.Tests.{ltb}

abbrev pub word : ℕ
word = 2 ^ 32

-- `a + b` and `a - b` on 32-bit words.
abbrev pub add32 : ℕ → ℕ → ℕ
add32 a b = (a + b) % word

abbrev pub sub32 : ℕ → ℕ → ℕ
sub32 a b = (a + word - b) % word

-- The order of two words that are read as signed: the sign bit is flipped on both sides.
abbrev pub slt32 : ℕ → ℕ → Bool
slt32 a b = ltb ((a + 2 ^ 31) % word) ((b + 2 ^ 31) % word)
