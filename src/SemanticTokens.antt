-- ===== src/SemanticTokens.antt =====
-- The cache of semantic tokens (src/bin/witcherscript-lsp/semantic_tokens_cache.rs).
pub mod Defs
pub mod Shared
pub mod Applied
