-- ===== src/Text.antt =====
-- The text routines of include/pu/core/text.hpp. A `std::string_view` and an index into it are the
-- suffix that starts at the index.
pub mod Utf8
pub mod Sanitize
pub mod Space
mod Tests
