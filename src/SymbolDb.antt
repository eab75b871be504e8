-- ===== src/SymbolDb.antt =====
-- Parts of the symbol database (src/resolve/symbol_db/).
pub mod Generics
pub mod Substituted
