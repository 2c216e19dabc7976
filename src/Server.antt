-- ===== src/Server.antt =====
-- modules/rt_server: the directory of shared objects.
pub mod Commands
pub mod Connection
pub mod Directory
pub mod SharedObject
pub mod Tree
