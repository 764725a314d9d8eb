-- ===== src/Book.antt =====
-- src/book.h: the standing book of a symbol, and the set of books behind a fingerprint.
pub mod Prices
pub mod Defs
pub mod BookSet
pub mod Levels
pub mod Touch
pub mod Replay
mod Tests
