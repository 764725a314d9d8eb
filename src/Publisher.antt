-- ===== src/Publisher.antt =====
-- src/feedpublisher.h: the sending side of the reliable multicast.
pub mod Defs
pub mod Serve
pub mod Ring
pub mod Stream
pub mod Run
pub mod Finish
pub mod Session
mod Tests
