-- ===== src/Libdyn/Connect.antt =====
-- libdyn.c: `libdyn_block_connect` and `libdyn_block_connect_external`. Port numbers are 32-bit
-- words that the guards read as signed.
pub mod Attach
pub mod Link
use ortd.Prelude.{ℕ, Bool, true, not, ◌||◌, Option, some, if◌then◌else◌, ◌==◌, slt32, update_at}
use ortd.Libdyn.{Network, Block, InPort, OutPort, InType, undef, direct, extern, Junction}

-- The value that is returned: 1, or the error codes -1 to -5.
pub data Status : Type 0 where
  connected no_input no_output len_mismatch datatype_mismatch already_connected : Status

pub is_undef : InType → Bool
is_undef undef = true
is_undef direct = Bool.false
is_undef extern = Bool.false

pub out_of_range : ℕ → ℕ → Bool
out_of_range port count = slt32 port 0 || not (slt32 port count)

-- The new head of the junction list of an output is the input that is connected to it.
unfoldable pub link : Network → ℕ → ℕ → ℕ → ℕ → Network
link net from out_nr to in_nr = record net {
  in_port = update_at net.in_port to in_nr (record (net.in_port to in_nr) {
    pre = from;
    out_nr = out_nr;
    intype = direct;
    next_juncture = (net.out_port from out_nr).post;
  });
  out_port =
      update_at net.out_port from out_nr
        (record (net.out_port from out_nr) { outtype_direct = true; post = some (to, in_nr) });
}

unfoldable pub connect : Network → ℕ → ℕ → ℕ → ℕ → Status × Network
unfolding is_undef out_of_range
connect net from out_nr to in_nr =
    if out_of_range in_nr (net.block to).nin
    then (no_input, net)
    else if out_of_range out_nr (net.block from).nout
    then (no_output, net)
    else if not (input.len == output.len)
    then (len_mismatch, net)
    else if not (input.datatype == output.datatype)
    then (datatype_mismatch, net)
    else if not (is_undef input.intype)
    then (already_connected, net)
    else (connected, link net from out_nr to in_nr)
  where
    input : InPort
    input = net.in_port to in_nr

    output : OutPort
    output = net.out_port from out_nr

pub data ExternalStatus : Type 0 where
  attached no_such_port size_mismatch : ExternalStatus

-- An input that is fed by the memory of the caller.
pub connect_external : Network → ℕ → ℕ → ℕ → ExternalStatus × Network
unfolding out_of_range
connect_external net to in_nr portsize =
    if out_of_range in_nr (net.block to).nin
    then (no_such_port, net)
    else if not (portsize == (net.in_port to in_nr).len)
    then (size_mismatch, net)
    else (
      attached,
      record net {
        in_port =
            update_at net.in_port to in_nr (record (net.in_port to in_nr) { intype = extern });
      },
    )
