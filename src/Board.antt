-- ===== src/Board.antt =====
-- The task board of `pu serve` (src/serve/board.cpp, include/pu/serve/board.hpp).
pub mod Job
pub mod Duration
pub mod Store
pub mod Verbs
pub mod Calls
pub mod Lists
pub mod Effect
pub mod Refines
pub mod Bounds
pub mod History
pub mod Eviction
pub mod Rules
pub mod Declines
pub mod Spans
pub mod Views
pub mod Digest
pub mod Shown
mod Tests
