-- ===== src/Subscriber.antt =====
-- src/subscriber.h: the receiving side of the reliable multicast.
pub mod Bucket
pub mod Nak
pub mod Invariant
pub mod Deliver
pub mod Complete
pub mod Arrive
pub mod Datagram
pub mod Frames
pub mod Chase
pub mod Stream
pub mod Later
pub mod Order
pub mod Repair
pub mod Reassemble
pub mod Heads
pub mod Chunks
pub mod Pump
pub mod Run
pub mod Total
pub mod Ends
pub mod Rounds
pub mod CatchUp
pub mod Exchange
pub mod Drain
mod Tests
mod RunTests
