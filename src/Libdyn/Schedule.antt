-- ===== src/Libdyn/Schedule.antt =====
-- libdyn.c: `libdyn_setup_executionlist` and the helpers that it calls. The `while` loop over a
-- junction list and the `do` loop over the growing execution list take fuel.
pub mod Order
pub mod Reset
pub mod Invariant
pub mod Supply
pub mod Mark
pub mod Walk
pub mod Outputs
pub mod Process
pub mod Passes
pub mod Setup
pub mod Correct
mod Tests
use ortd.Prelude.{
  ℕ, zero, suc, ◌+◌, Bool, true, false, not, ◌&&◌, Option, none, some, List, [], ◌∷◌, ◌++◌,
  get_elem?, update, update_at, sub32, ◌==◌, if◌then◌else◌,
}
use ortd.Libdyn.{Network, Block, InPort, OutPort, InType, undef, direct, extern, Junction}

-- What the algorithm writes: `remaining_input_availability` (a word, read as signed), the flags
-- `input_available[0]` and `block_executed`, and the execution list from its head to its tail.
pub record Schedule : Type 0 where
  pub remaining : ℕ → ℕ
  pub available : ℕ → ℕ → Bool
  pub executed : ℕ → Bool
  pub exec : List ℕ

-- `libdyn_add_to_execution_list`: false is its result 0, for a block that is on the list.
pub add_to_execution_list : ℕ → Schedule → Bool × Schedule
add_to_execution_list b s =
    if s.executed b
    then (false, s)
    else (true, record s { exec = s.exec ++ b ∷ []; executed = update s.executed b true })

-- `libdyn_setup_executionlist_setandcheck_avail`
pub set_and_check_avail : ℕ → ℕ → Schedule → Bool × Schedule
set_and_check_avail b i s = (
  sub32 (s.remaining b) 1 == 0,
  record s {
    available = update_at s.available b i true;
    remaining = update s.remaining b (sub32 (s.remaining b) 1);
  },
)

pub is_extern : InType → Bool
is_extern undef = false
is_extern direct = false
is_extern extern = true

-- One input in the first pass. The Boolean is `all_inputs_available`: it is lost at an input that
-- has no memory of the caller.
pub reset_input : Network → ℕ → ℕ → Bool × Schedule → Bool × Schedule
unfolding is_extern
reset_input net b i (all, s) =
    let cleared = record s { available = update_at s.available b i false } in
    let s' : Schedule =
      if is_extern (net.in_port b i).intype then (set_and_check_avail b i cleared).1 else cleared in
    (all && s'.available b i, s')

-- The inputs 0 to n - 1 of a block, in this order.
pub reset_inputs : Network → ℕ → ℕ → Schedule → Bool × Schedule
reset_inputs net b zero s = (true, s)
reset_inputs net b (suc i) s = reset_input net b i (reset_inputs net b i s)

-- The body of the first pass for block `b`.
pub reset_block : Network → ℕ → Schedule → Schedule
reset_block net b s =
    let n = (net.block b).nin in
    let cleared = record s {
      remaining = update s.remaining b n;
      executed = update s.executed b false;
    } in
    let (all, s') = reset_inputs net b n cleared in
    if all then (add_to_execution_list b s').1 else s'

-- The two passes over the blocks 0 to n - 1, of which there is one at least: the second puts the
-- blocks with states and without direct feedthrough on the list.
pub first_pass : Network → ℕ → Schedule → Schedule
first_pass net zero s = s
first_pass net (suc b) s = reset_block net b (first_pass net b s)

pub add_dynamic : Network → ℕ → Schedule → Schedule
add_dynamic net b s =
    if not (net.block b).d_feedthrough && (net.block b).dynamic
    then (add_to_execution_list b s).1
    else s

pub second_pass : Network → ℕ → Schedule → Schedule
second_pass net zero s = s
second_pass net (suc b) s = add_dynamic net b (second_pass net b s)

-- The value 0 with the lists that are set up, the two errors that return -1, the access through the
-- head of an empty list of blocks, or no end in sight.
pub data Outcome : Type 0 where
  ok : Schedule → Outcome
  no_blocks : Outcome
  algebraic_loop : ℕ → Outcome
  null_head : Outcome
  out_of_fuel : Outcome

infixl 5 ◌>>=◌
abbrev pub ◌>>=◌ : Outcome → (Schedule → Outcome) → Outcome
ok s >>= f = f s
no_blocks >>= f = no_blocks
algebraic_loop b >>= f = algebraic_loop b
null_head >>= f = null_head
out_of_fuel >>= f = out_of_fuel

-- What follows the result of `libdyn_add_to_execution_list` for a block with all its inputs.
pub when_added : Network → ℕ → Bool × Schedule → Outcome
when_added net c (true, s) = ok s
when_added net c (false, s) = if (net.block c).d_feedthrough then algebraic_loop c else ok s

-- The body of the loop over a junction list: input `i` of block `c` is available.
pub mark : Network → ℕ → ℕ → Schedule → Outcome
unfolding when_added
mark net c i s =
    let (complete, s') = set_and_check_avail c i s in
    if complete then when_added net c (add_to_execution_list c s') else ok s'

pub walk : Network → ℕ → Junction → Schedule → Outcome
walk net zero cur s = out_of_fuel
walk net (suc f) none s = ok s
walk net (suc f) (some (c, i)) s = mark net c i s >>= walk net f (net.in_port c i).next_juncture

-- The outputs 0 to n - 1 of block `b`, in this order.
pub mark_outputs : Network → ℕ → ℕ → ℕ → Schedule → Outcome
mark_outputs net fuel b zero s = ok s
mark_outputs net fuel b (suc o) s =
    mark_outputs net fuel b o s >>= walk net fuel (net.out_port b o).post

-- The loop over the execution list, at its element number `k`.
pub process : Network → ℕ → ℕ → ℕ → Schedule → Outcome
process net fuel zero k s = out_of_fuel
process net fuel (suc f) k s = elim (get_elem? s.exec k) [
  | none ↦ ok s
  | some b ↦ mark_outputs net fuel b (net.block b).nout s >>= process net fuel f (k + 1)
]

pub is_empty : List ℕ → Bool
is_empty [] = true
is_empty (b ∷ bs) = false

-- The fuel bounds the length of a junction list, and the number of blocks.
pub setup_executionlist : Network → ℕ → ℕ → Schedule → Outcome
unfolding is_empty
setup_executionlist net links blocks s =
    let ready = second_pass net net.num_blocks (first_pass net net.num_blocks s) in
    if net.num_blocks == 0
    then null_head
    else if is_empty ready.exec
    then no_blocks
    else process net links blocks 0 ready
