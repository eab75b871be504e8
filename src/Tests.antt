-- ===== src/Tests.antt =====
-- Concrete inputs of the theorems.
mod Reaching
mod Lines
mod Annotations
mod Subscribers
mod Edits
mod Slots
mod Displayed
mod Document
mod Index
mod Tokens
mod Generics
