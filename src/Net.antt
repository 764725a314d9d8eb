-- ===== src/Net.antt =====
-- src/net.h: the loops over a stream socket, the clocks, and the addresses of the groups.
pub mod Stream
pub mod Reads
pub mod Writes
pub mod Clock
pub mod Groups
pub mod Sockets
mod Tests
