-- ===== src/Feed/DeepPlus.antt =====
-- src/deepplus.h: order events to level updates. The global `levels` is a field of the decoder, and
-- `out` is the list of the messages stored. A signed sum is an integer; C leaves its overflow
-- undefined.
pub mod Defs
pub mod Reads
pub mod Weights
pub mod Totals
pub mod Events
pub mod Run
