-- ===== src/LineIndex.antt =====
-- Byte offsets and UTF-16 positions (src/line_index.rs).
pub mod Utf
pub mod Defs
pub mod Starts
pub mod RoundTrip
pub mod Boundaries
