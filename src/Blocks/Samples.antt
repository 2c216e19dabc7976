-- ===== src/Blocks/Samples.antt =====
-- Integers in place of doubles, for the runs of the blocks.
use ortd.Prelude.{ℤ, pos, ltb_ℤ, ◌+ℤ◌, ◌-ℤ◌}
use ortd.Blocks.{Floating}

abbrev pub whole : Floating
whole = record {
  F = ℤ;
  nought = pos 0;
  unit = pos 1;
  above_zero = λ x. ltb_ℤ (pos 0) x;
  above_half = λ x. ltb_ℤ (pos 0) x;
  less = ltb_ℤ;
  plus = ◌+ℤ◌;
  minus_one = λ x. x -ℤ pos 1;
  to_int = λ x. x;
  round = λ x. x;
  of_int = λ x. x;
}
