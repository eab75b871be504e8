-- ===== src/EditPlan.antt =====
-- The edits of a refactoring (src/resolve/edit_plan.rs).
pub mod Defs
pub mod Order
pub mod Chunks
pub mod Cursor
pub mod Delete
