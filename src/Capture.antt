-- ===== src/Capture.antt =====
-- src/pcapng_reader.h: the capture file, its blocks and the packets in them.
pub mod Order
pub mod Defs
pub mod Open
pub mod Blocks
pub mod Frames
pub mod Interfaces
pub mod Reads
pub mod Headers
pub mod Short
pub mod Payload
pub mod Total
pub mod Encode
pub mod FrameTrip
pub mod FileTrip
pub mod BlockTrip
pub mod Yields
pub mod Times
mod Tests
