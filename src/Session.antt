-- ===== src/Session.antt =====
-- A session's conversation: its messages, their graph, the costs of its turns and the request that is
-- built from it (src/session, include/pu/session).
pub mod Message
pub mod Graph
pub mod Usage
pub mod Totals
pub mod Request
pub mod Supersession
pub mod Json
pub mod Values
pub mod Stored
pub mod Reload
pub mod Saved
pub mod Conversation
pub mod Walks
pub mod Rewinding
mod Tests
mod SavedTests
mod RewindTests
