-- ===== src/Blocks.antt =====
-- modules/basic_ldblocks: computational functions of basic blocks that choose, copy, count and delay.
-- A block is its state, what its outputs keep, one function for each flag that does something, and
-- the calls that it makes for COMPF_FLAG_CONFIGURE; `none` is the return value -1 there, and a
-- `malloc` that succeeds is left out. Arithmetic of doubles is not the subject of these blocks.
pub mod Counters
pub mod Delay
pub mod Samples
pub mod Switches
pub mod Vectors
use ortd.Prelude.{ℕ, Bool, ℤ}

-- What the blocks use of `double`: a parameter, since C defines it. `to_int` is the conversion to
-- `int`, and `round` is that of math.h with this conversion; both are taken where they are defined.
pub record Floating : Type 1 where
  pub F : Type 0
  pub nought : F
  pub unit : F
  pub above_zero : F → Bool
  pub above_half : F → Bool
  pub less : F → F → Bool
  pub plus : F → F → F
  pub minus_one : F → F
  pub to_int : F → ℤ
  pub round : F → ℤ
  pub of_int : ℤ → F

-- `DATATYPE_FLOAT` and `DATATYPE_INT32`
abbrev pub float : ℕ
float = 257

abbrev pub int32 : ℕ
int32 = 2
