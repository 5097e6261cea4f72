-- ===== src/Mcp.antt =====
-- The client of tool servers: lines off a pipe, requests and their replies, and the tools of a server
-- (src/mcp/client.cpp, src/mcp/stdio_transport.cpp).
pub mod Reader
pub mod Cutting
pub mod Rpc
pub mod Replies
pub mod Client
pub mod Tools
mod Tests
