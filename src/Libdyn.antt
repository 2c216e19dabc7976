-- ===== src/Libdyn.antt =====
-- libdyn.h, libdyn.c: the interpreter's network of blocks. A block is named by its position in the
-- list of all blocks (`allblocks_list_head`), which is the order of creation; a port by its number.
-- The fields of all blocks and ports are functions of these numbers.
pub mod Connect
pub mod Create
pub mod Wiring
pub mod Schedule
pub mod Step
pub mod Init
use ortd.Prelude.{ℕ, Bool, Option}

-- `INTYPE_UNDEF`, `INTYPE_DIRECT`, `INTYPE_EXTERN`; the other macros of that name are not used.
pub data InType : Type 0 where
  undef direct extern : InType

-- An input port that the junction list of an output goes on to: a block and the number of its input.
abbrev pub Junction : Type 0
Junction = Option (ℕ × ℕ)

-- `dynlib_inlist_t` at sub-input 0, the only one that is ever used: the connected block `pre` and
-- its output `out_nr`, and the next input on the same junction list.
pub record InPort : Type 0 where
  pub len : ℕ
  pub datatype : ℕ
  pub intype : InType
  pub pre : ℕ
  pub out_nr : ℕ
  pub next_juncture : Junction

-- `dynlib_outlist_t`: `post` with `post_input` is the head of the output's junction list.
pub record OutPort : Type 0 where
  pub len : ℕ
  pub datatype : ℕ
  pub outtype_direct : Bool
  pub post : Junction

-- The part of `dynlib_block_t` that does not change once a block is configured.
pub record Block : Type 0 where
  pub nin : ℕ
  pub nout : ℕ
  pub d_feedthrough : Bool
  pub dynamic : Bool

-- The blocks of one `dynlib_simulation_t` with their ports.
pub record Network : Type 0 where
  pub num_blocks : ℕ
  pub block : ℕ → Block
  pub in_port : ℕ → ℕ → InPort
  pub out_port : ℕ → ℕ → OutPort
