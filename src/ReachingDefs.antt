-- ===== src/ReachingDefs.antt =====
-- Reaching definitions of one local variable over one function body
-- (src/resolve/reaching_defs.rs).
pub mod Syntax
pub mod Masks
pub mod Analyzer
pub mod Semantics
pub mod Order
pub mod Shape
pub mod Holds
pub mod Supported
pub mod Loops
pub mod Sequences
pub mod Soundness
pub mod Reads
pub mod Growth
pub mod Recording
pub mod Bounds
pub mod Sole
pub mod Results
pub mod Correct
pub mod Missed
