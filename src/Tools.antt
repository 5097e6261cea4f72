-- ===== src/Tools.antt =====
-- Which commands the shell tool runs (src/tools/policy.cpp, src/tools/bash.cpp).
pub mod Policy
pub mod Bash
pub mod Allowed
mod Tests
