-- ===== src/Workspace/Unnotified.antt =====
-- An update that the dependents of a looked-up name are not told of
-- (src/resolve/workspace_index/mod.rs, indices.rs, lookup.rs and subscribers.rs).
use witcherscript_language.Symbols.Symbol.{Symbol}
