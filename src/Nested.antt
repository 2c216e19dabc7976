-- ===== src/Nested.antt =====
-- Simulations inside of simulations: libdyn_cpp.cpp and modules/nested/nested_block.cpp.
pub mod Slots
pub mod Machine
pub mod Memory
