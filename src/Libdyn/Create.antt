-- ===== src/Libdyn/Create.antt =====
-- libdyn.c: the creation of blocks. `libdyn_new_block__` lets the computational function of a new
-- block configure it by `libdyn_config_block`, `libdyn_config_block_input`,
-- `libdyn_config_block_output` and `libdyn_config_outcache`, checks the result, lays out the memory
-- of the outputs and adds the block to the lists of the simulation. The computational function is a
-- parameter: the calls that it makes and whether it returns -1. What `malloc` leaves in a new block
-- is a parameter, too.
pub mod Cache
pub mod Fresh
pub mod Insert
pub mod Outcome
pub mod Built
mod Tests
use ortd.Prelude.{
  ℕ, zero, suc, ◌+◌, ◌*◌, ◌/◌, ◌%◌, Bool, true, false, not, ◌&&◌, ◌||◌, Option, none, some, List,
  [], ◌∷◌, ◌++◌, ◌==◌, if◌then◌else◌, word, add32, sub32, slt32, update, ◌>>=◌, ltb,
}
use ortd.Libdyn.{Network, Block, InPort, OutPort, InType, undef, Junction}

-- `DATATYPE_UNCONFIGURED`
abbrev pub unconfigured : ℕ
unconfigured = 0

-- `libdyn_config_get_datatype_len`: the cases of the switch, and the size that the datatype carries.
unfoldable pub datatype_len : ℕ → ℕ
datatype_len datatype =
    if datatype == 257
    then 8
    else if datatype == 4
    then 4
    else if datatype == 2
    then 4
    else if datatype == 3
    then 1
    else if datatype == 5
    then 1
    else if datatype == 6
    then 1
    else datatype / 32

-- `dynlib_outlist_t` while the block is created; `data` is an offset in the memory of the outputs.
pub record NewOutput : Type 0 where
  pub len : ℕ
  pub datatype : ℕ
  pub datasize : ℕ
  pub dinput_dependence : Bool
  pub data_offset : ℕ

-- `dynlib_block_t` while the block is created; the two counts of ports are 32-bit words.
pub record NewBlock : Type 0 where
  pub dynamic : Bool
  pub d_feedthrough : Bool
  pub nout : ℕ
  pub nin : ℕ
  pub own_outcache : Bool
  pub own_outcache_toconfigure : ℕ
  pub inlist : ℕ → InPort
  pub outlist : ℕ → NewOutput
  pub outdata_size : Option ℕ

abbrev pub unset_input : InPort
unset_input = record {
  len = 0;
  datatype = unconfigured;
  intype = undef;
  pre = 0;
  out_nr = 0;
  next_juncture = none;
}

abbrev pub unset_output : NewOutput
unset_output = record {
  len = 0;
  datatype = unconfigured;
  datasize = 0;
  dinput_dependence = false;
  data_offset = 0;
}

pub config_block : Bool → ℕ → ℕ → Bool → NewBlock → NewBlock
config_block dynamic nout nin own_outcache b = record b {
  dynamic = dynamic;
  d_feedthrough = false;
  nout = nout;
  nin = nin;
  own_outcache = own_outcache;
  own_outcache_toconfigure = nout;
  inlist = λ i. unset_input;
  outlist = λ o. unset_output;
}

pub config_block_input : ℕ → ℕ → ℕ → NewBlock → Bool × NewBlock
config_block_input port len datatype b =
    if slt32 len 0
    then (false, b)
    else if slt32 port b.nin && not (slt32 port 0)
    then (
      true,
      record b {
        inlist = update b.inlist port (record (b.inlist port) { len = len; datatype = datatype });
      },
    )
    else (false, b)

pub config_block_output : ℕ → ℕ → ℕ → Bool → NewBlock → Bool × NewBlock
unfolding datatype_len
config_block_output port len datatype dinput_dependence b =
    if slt32 len 0
    then (false, b)
    else if slt32 port b.nout && not (slt32 port 0)
    then (
      true,
      record b {
        outlist = update b.outlist port (record (b.outlist port) {
          len = len;
          datatype = datatype;
          datasize = (len * datatype_len datatype) % word;
          dinput_dependence = dinput_dependence;
        });
        d_feedthrough = if dinput_dependence then true else b.d_feedthrough;
      },
    )
    else (false, b)

-- The port is not tested; one that the block does not have is an access outside of `outlist`.
pub config_outcache : ℕ → ℕ → NewBlock → Option NewBlock
config_outcache port address b =
    if ltb port b.nout
    then some (record b {
      own_outcache_toconfigure = sub32 b.own_outcache_toconfigure 1;
      outlist = update b.outlist port (record (b.outlist port) { data_offset = address });
    })
    else none

-- What a computational function does when it is called with `COMPF_FLAG_CONFIGURE`.
pub data ConfigCall : Type 0 where
  block : Bool → ℕ → ℕ → Bool → ConfigCall
  input : ℕ → ℕ → ℕ → ConfigCall
  output : ℕ → ℕ → ℕ → Bool → ConfigCall
  outcache : ℕ → ℕ → ConfigCall

pub apply : ConfigCall → NewBlock → Option NewBlock
unfolding config_block config_block_input config_block_output config_outcache
apply (block dynamic nout nin own) b = some (config_block dynamic nout nin own b)
apply (input port len datatype) b = some (config_block_input port len datatype b).1
apply (output port len datatype dinput) b = some (config_block_output port len datatype dinput b).1
apply (outcache port address) b = config_outcache port address b

pub configure : List ConfigCall → NewBlock → Option NewBlock
configure [] b = some b
configure (c ∷ cs) b = apply c b >>= configure cs

-- Before `libdyn_config_block` is called, the number of ports is what `malloc` has left, and the ports
-- are behind null pointers: the first call sets them.
pub configure_block : List ConfigCall → NewBlock → Option NewBlock
unfolding configure apply
configure_block [] fresh = none
configure_block (block dynamic nout nin own ∷ cs) fresh =
    configure (block dynamic nout nin own ∷ cs) fresh
configure_block (input port len datatype ∷ cs) fresh = none
configure_block (output port len datatype dinput ∷ cs) fresh = none
configure_block (outcache port address ∷ cs) fresh = none

-- The two loops that look for ports that are not configured.
pub inputs_configured : ℕ → NewBlock → Bool
inputs_configured zero b = true
inputs_configured (suc i) b = inputs_configured i b && not ((b.inlist i).datatype == unconfigured)

pub outputs_configured : ℕ → NewBlock → Bool
outputs_configured zero b = true
outputs_configured (suc i) b =
    outputs_configured i b && not ((b.outlist i).datatype == unconfigured)

-- `mem_needed`, and the loop that shares the memory among the outputs.
pub mem_needed : ℕ → NewBlock → ℕ
mem_needed zero b = 0
mem_needed (suc i) b = add32 (mem_needed i b) (b.outlist i).datasize

pub share_outdata : ℕ → NewBlock → ℕ × NewBlock
share_outdata zero b = (0, b)
share_outdata (suc i) b =
    let (ofset, b') = share_outdata i b in
    (
      add32 ofset (b'.outlist i).datasize,
      record b' { outlist = update b'.outlist i (record (b'.outlist i) { data_offset = ofset }) },
    )

-- The simulation: its network, the counter for `numID`, the blocks on the list for the update of
-- states, and the configurations of all blocks.
pub record Simulation : Type 0 where
  pub net : Network
  pub numid_counter : ℕ
  pub execution_sup_list : List ℕ
  pub config : ℕ → NewBlock

-- The new block as the last one of the list of all blocks.
pub insert : NewBlock → Network → Network
insert b net = record net {
  num_blocks = suc net.num_blocks;
  block =
      update net.block net.num_blocks (record {
        nin = b.nin;
        nout = b.nout;
        d_feedthrough = b.d_feedthrough;
        dynamic = b.dynamic;
      });
  in_port = update net.in_port net.num_blocks b.inlist;
  out_port = update net.out_port net.num_blocks (λ o. record {
    len = (b.outlist o).len;
    datatype = (b.outlist o).datatype;
    outtype_direct = false;
    post = none;
  });
}

-- `libdyn_add_to_allblocks_list` and `libdyn_add_to_sup_execution_list`
pub add_to_lists : NewBlock → Simulation → Simulation
unfolding insert
add_to_lists b s = record s {
  net = insert b s.net;
  execution_sup_list =
      if b.dynamic then s.execution_sup_list ++ s.net.num_blocks ∷ [] else s.execution_sup_list;
  config = update s.config s.net.num_blocks b;
}

-- The memory for the outputs, unless the block has its own; `none` where that is not complete.
pub alloc_outputs : NewBlock → Option NewBlock
unfolding mem_needed share_outdata
alloc_outputs b =
    if not b.own_outcache
    then some (record (share_outdata b.nout b).1 { outdata_size = some (mem_needed b.nout b) })
    else if not (b.own_outcache_toconfigure == 0)
    then none
    else some b

pub finish : Option NewBlock → Simulation → Bool × Simulation
unfolding add_to_lists
finish none s = (false, s)
finish (some b) s = (true, add_to_lists b s)

abbrev pub counted : Simulation → Simulation
counted s = record s { numid_counter = add32 s.numid_counter 1 }

-- What follows the call of the computational function, which has left the block b.
pub check_block : Bool → Simulation → NewBlock → Bool × Simulation
unfolding inputs_configured outputs_configured alloc_outputs finish
check_block failed s b =
    if failed
    then (false, s)
    else if not (inputs_configured b.nin b && outputs_configured b.nout b)
    then (false, s)
    else finish (alloc_outputs b) s

pub no_calls : List ConfigCall → Bool
no_calls [] = true
no_calls (c ∷ cs) = false

-- `libdyn_new_block__`: false is the result 0, and the block is deleted. A computational function that
-- fails may do so before it has configured anything.
pub new_block : NewBlock → List ConfigCall → Bool → Simulation → Option (Bool × Simulation)
unfolding no_calls configure_block check_block
new_block fresh calls failed s =
    if no_calls calls && failed
    then some (false, counted s)
    else (configure_block calls (record fresh { outdata_size = none }) >>= λ b.
        some (check_block failed (counted s) b))

abbrev pub no_block : NewBlock
no_block = record {
  dynamic = false;
  d_feedthrough = false;
  nout = 0;
  nin = 0;
  own_outcache = false;
  own_outcache_toconfigure = 0;
  inlist = λ i. unset_input;
  outlist = λ o. unset_output;
  outdata_size = none;
}

-- `libdyn_new_simulation`: there are no blocks.
pub new_simulation : Simulation
new_simulation = record {
  net = record {
    num_blocks = 0;
    block = λ b. record { nin = 0; nout = 0; d_feedthrough = false; dynamic = false };
    in_port = λ b i. unset_input;
    out_port =
        λ b o. record { len = 0; datatype = unconfigured; outtype_direct = false; post = none };
  };
  numid_counter = 0;
  execution_sup_list = [];
  config = λ b. no_block;
}
