-- ===== src/Serve.antt =====
-- The server of a workspace: who it answers, what its routes do to the board, and the turns it runs
-- (src/app/serve_http_routes.cpp, src/app/serve_runner.cpp, src/config/peer.cpp).
pub mod Peers
pub mod Secret
pub mod Runner
pub mod Joining
pub mod Closing
pub mod Worker
pub mod Watching
pub mod Joined
pub mod Following
pub mod Turns
pub mod Steady
pub mod Attached
pub mod Halves
pub mod Races
pub mod Between
pub mod Endings
pub mod Registry
pub mod Listed
pub mod Joins
pub mod Routes
pub mod Handlers
pub mod Dispatch
pub mod Admitted
pub mod Moves
mod Tests
