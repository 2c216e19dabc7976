-- ===== src/Lib.antt =====
-- OpenRTDynamics (ORTD): the real-time interpreter for schematics of connected blocks, with the
-- modules around it. Paths are those of the repository.
--
-- The program. A schematic is a list of blocks with connected ports, written by Scilab functions
-- into two parameter vectors. libdyn.c builds the network of blocks, computes an order in which
-- their outputs can be calculated, and executes the blocks in this order, step by step. The
-- modules add blocks; blocks find shared objects, such as the ring buffer, by name in a directory.
--
-- The model, by file:
-- - Prelude and its children: shared names; tests, lists and words over the native numbers;
--   tables (functions of a block's or port's number) and predicates on lists; Int, the signed
--   integers; Copy, the copy and the setting of array elements.
-- - Libdyn: libdyn.h, the records of blocks and ports. Libdyn/Connect: libdyn_block_connect and
--   libdyn_block_connect_external; Libdyn/Wiring says when the junction lists and the inputs of a
--   network agree, and Libdyn/Connect/Link and Attach that a connection keeps this. Libdyn/Create:
--   libdyn_new_simulation and libdyn_new_block with the configuration of the ports; Cache treats the
--   memory of the outputs, Outcome the ways in which the creation of a block ends, Fresh the ports of
--   a new block, Insert its addition to the network, and Built any sequence of creations and connections.
-- - Libdyn/Schedule: libdyn_setup_executionlist, one function for each of its loops. Its children
--   carry the invariant: Order (what a good list is), Invariant, Reset and Passes (the first two
--   passes), Supply, Mark, Walk and Outputs (one block of the list), Process (the main loop),
--   Setup and Correct (the whole).
-- - Libdyn/Init: libdyn_simulation_init, libdyn_simulation_callinitflag and libdyn_del_simulation,
--   over computational functions that are a parameter; Init/Calls gives names to sequences of calls,
--   Undo and Callinit treat one flag for all blocks, Delete the deletion, Life the whole.
-- - Libdyn/Step: libdyn_simulation_step and the events of libdyn.c; Step/Events treats the clocks,
--   Step/Outputs the computation of the outputs.
-- - Irpar: irpar.c, the reading of parameter sets; Irpar/Combine: irpar.sci in
--   scilab/ld_toolbox/initialrun, which writes them. Layout says what stands where in the vectors,
--   Find follows the search for an id, RoundTrip the vectors, matrices, transfer functions and strings.
-- - Nested/Slots: the slots of libdyn_nested2 in libdyn_cpp.cpp; Invariant says when they are valid,
--   Current follows the current simulation over any operations. Nested/Machine: the state machine, the
--   case switch and the for loop of modules/nested/nested_block.cpp over these slots, with the
--   simulations as a parameter; Load, Run and Switch treat the loading, the totality and the switches.
--   Nested/Memory: modules/nested/persistent_memory.cpp, the shared memory and the blocks that read
--   and write it; Access and Variable treat the blocks of a fixed and of a variable length.
-- - Blocks: computational functions of modules/basic_ldblocks. Blocks/Delay: the delays; Queue and
--   Vector compare them with queues. Blocks/Counters: the counters and the timer, in Modulo, Limits
--   and Alarm. Blocks/Vectors: the blocks that take vectors apart and put them together, in Elements,
--   Windows, Glue and Collect. Blocks/Switches: the switches, the memory and the steps, with Trigger.
-- - RingBuffer: modules/pipelines/RingBuffer.cpp, the class RingBuffer_shobj and the loop of the
--   read block; RingBuffer/Spec is the bounded queue that it implements, and Window, Invariant,
--   Refine, Read and Marker the proofs.
-- - Server: modules/rt_server. Server/Directory is the class directory_leaf of directory.cpp over
--   a list sorted by name (Name, Sorted), and Refine the finite map that it implements.
--   Server/Tree: directory_tree with its mutex, and Listing. Its fuel is beyond the number of entries.
--   Server/SharedObject: ortd_global_shared_object in global_shared_object.cpp and .h, and its Life.
--   Server/Connection: ortd_buffered_io.cpp and tcp_connection of rt_server.cpp; Lines, Sending and
--   Usage treat the input, the output and the counter of users. Server/Commands: the table of
--   commands, rt_server::parse_line, rt_server_threads_manager::del_from_client_list and
--   rt_server_thread, with Dispatch and Thread.
--
-- Conventions. A pointer to a block is the number of the block in the list of all blocks; what C
-- writes through pointers is a new value of a record. `int` and `unsigned` counters that can wrap
-- are words below 2 ^ 32, with signed comparisons written out; sizes are below 2 ^ 31. An `int` that
-- is only compared, or is an index, is an integer without bounds. An access outside of an array is
-- `none`, as is a conversion to `int` that is undefined and a wait for a mutex that is held; the execution
-- order of a simulation without blocks, which reads a null pointer, is an outcome of its own,
-- `null_head`. What the blocks use of `double` is a parameter, as are `send` and the callbacks of commands;
-- the fuel of the server's loops counts bytes, which each round takes at least one of. Mutexes are
-- left out where one call is one critical section. A loop over pointers takes fuel: the length of a
-- junction list, and the number of blocks, are enough, and running out is an outcome of its own.
--
-- Not modelled: floating point arithmetic of blocks, the opening of sockets, files, threads and
-- devices, third-party code (edflib, muParser, RandomLib, Scicos headers), and the Scilab front end
-- but for irpar.sci. A `malloc` that fails, and printed messages, are left out.
pub mod Blocks
pub mod Irpar
pub mod Libdyn
pub mod Nested
pub mod Prelude
pub mod RingBuffer
pub mod Server
