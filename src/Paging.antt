-- ===== src/Paging.antt =====
-- Paging of command output (src/paging/paging.cpp, include/pu/paging/paging.hpp).
pub mod Data
pub mod Decimal
pub mod Cursors
pub mod Reading
pub mod Store
pub mod Lines
pub mod Pages
pub mod Walk
pub mod Retention
pub mod Fresh
mod Tests
