-- ===== src/Exec.antt =====
-- Running a command and keeping its output (src/exec/run.cpp).
pub mod Capture
pub mod Run
pub mod Pieces
pub mod Ending
pub mod Keeping
pub mod Window
pub mod Overrun
mod Tests
