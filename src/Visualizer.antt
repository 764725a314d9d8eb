-- ===== src/Visualizer.antt =====
-- src/visualizer.cpp: the ladder of one symbol.
pub mod View
pub mod Watch
mod Tests
