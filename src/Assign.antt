-- ===== src/Assign.antt =====
-- Which type may be assigned to which (src/resolve/assignability.rs).
pub mod Equal
pub mod Defs
pub mod Sub
