-- ===== src/Wire.antt =====
-- src/helpers.h: the wire format of messages and datagrams, and the hashes over it.
pub mod Bytes
pub mod Message
pub mod RoundTrip
pub mod Reads
pub mod Accept
pub mod Hash
mod Tests
