-- ===== src/Runtime.antt =====
-- One turn of the agent: the loop of requests and tool calls (src/runtime/executor.cpp).
pub mod Data
pub mod Spending
pub mod Calls
pub mod Loop
pub mod Http
pub mod Progress
pub mod Ends
pub mod Log
pub mod Receipts
pub mod Cancelled
mod Tests
