-- ===== src/Symbols.antt =====
-- The symbols of a document and their tree (src/symbols/types.rs).
pub mod Kinds
pub mod Specifiers
pub mod Symbol
pub mod Document
pub mod Keywords
pub mod Names
pub mod Indexes
pub mod Sorting
pub mod Kept
pub mod Lookups
pub mod Building
pub mod Enclosing
