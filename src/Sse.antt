-- ===== src/Sse.antt =====
-- The event-stream parser (src/core/sse.cpp, include/pu/core/sse.hpp).
pub mod Fields
pub mod Parser
pub mod Chunks
pub mod Frames
mod Tests
