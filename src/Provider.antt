-- ===== src/Provider.antt =====
-- What a provider reads off the stream of a reply (src/llm/openai_protocol.cpp,
-- src/llm/streaming_provider.cpp).
pub mod Data
pub mod Stream
pub mod Frames
pub mod Chat
pub mod Cuts
pub mod Deltas
pub mod Assembled
pub mod Replies
pub mod Projection
pub mod Projected
mod Tests
