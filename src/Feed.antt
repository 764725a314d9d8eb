-- ===== src/Feed.antt =====
-- src/iextp.h, src/deepplus.h and src/feedhandler.cpp: from packets of the venue to messages.
pub mod Iextp
pub mod DeepPlus
pub mod Handler
pub mod Duplicates
pub mod Main
pub mod Course
pub mod Session
pub mod Total
pub mod Ends
mod Tests
