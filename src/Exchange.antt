-- ===== src/Exchange.antt =====
-- src/exchange.cpp and src/checkcap.cpp: the two programs that read a capture to its end.
pub mod Programs
pub mod Replay
pub mod Check
pub mod EndToEnd
mod Tests
