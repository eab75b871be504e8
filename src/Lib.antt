-- ===== src/Lib.antt =====
-- Verification of the WitcherScript language library and server.
--
-- The program parses WitcherScript sources into syntax trees, extracts symbols from them, indexes
-- the symbols of a workspace over those of the base game and the builtins, and answers a language
-- server's queries (definitions, completions, diagnostics, refactorings) from the index. This
-- library models the parts that compute on plain data.
--
--   ReachingDefs   src/resolve/reaching_defs.rs: which definition of a local variable each of its
--                  reads sees, on which the refactorings rely. Syntax is the syntax tree as
--                  `eval_stmt` tells its nodes apart; Masks and Analyzer are the analysis
--                  (`reaching_defs`, `eval_stmt` and the other methods under their names), with
--                  `self.out` passed on explicitly; Semantics and Reads are the runs of a body,
--                  in which the definitions inside a region take effect in the order in which
--                  their nodes start, and a read sees those that land before it; Order compares
--                  this with the analysis, which keeps the last one; Supported is the class
--                  of bodies that the soundness theorem is about, and Missed treats two statements
--                  outside it.
--   LineIndex      src/line_index.rs: byte offsets and UTF-16 positions. Utf has the encodings of a
--                  text, Defs the index and its conversions.
--   Types          src/types/mod.rs and src/types/parse.rs: the structured types, their spelling,
--                  and the reading of annotations; Walks and Tight treat displayed types.
--   Registry       src/resolve/subscription_registry.rs: which files are told when a name changes.
--                  Buckets is one hash map from keys to subscribers, Defs the registry with
--                  `register`, `unregister` and `subscribers_of`.
--   EditPlan       src/resolve/edit_plan.rs: the edits of a refactoring. Defs has the splices and
--                  their application, Chunks the text as kept and replaced parts, Cursor
--                  `applied_offset` and the caret, Delete `delete_statement`.
--   Assign         src/resolve/assignability.rs: which type may be assigned to which, over an
--                  interface of the symbol database. Equal has the derived equality of types.
--   Symbols        src/symbols/types.rs: the symbols of a document. Kinds, Specifiers and Symbol are
--                  the records and what they say of themselves, Document the symbols in order with
--                  the indices of `build_indexes` and the lookups in them; Sorting shows that no
--                  sort key there is taken out of range, Kept what the indexing leaves alone.
--   Workspace      src/resolve/workspace_index/ and src/resolve/completion_catalog.rs: the index of
--                  the documents' symbols. Defs has the index and the catalogs, Keys the outward
--                  keys and their hashes, Index the steps of insertion and removal, Update the whole
--                  updates, Lookup the queries, with the contexts of src/resolve/name_context.rs;
--                  Channel states what the maps of the index have in common, its children fill it
--                  for each map, Reachable treats the index as a state machine, Current says how old
--                  its catalog can be, Stale is about the one symbol that the steps treat apart, and
--                  Unnotified about a name whose observers are not told. Registry is told the keys that an
--                  update returns.
--   SymbolDb       src/resolve/symbol_db/generics.rs: the members of `array` and `map` at concrete
--                  types, by substitution for the placeholders.
--   SemanticTokens src/bin/witcherscript-lsp/semantic_tokens_cache.rs: the edits between two encodings
--                  of a file's tokens, and their application by the client, as the protocol has it.
--   Base           the names and lemmas that the parts share.
--   Tests          concrete inputs.
--
-- A `&str` is the list of its scalar values, with byte offsets and byte lengths computed from it.
-- Indices are unbounded natural numbers where the source has `usize`, and positions saturate at
-- 2 ^ 32 - 1 as in the source. A `u128` mask is a function from bit positions to Booleans of which
-- the first 128 count. A hash map is an association list and a hash set a list, both under a
-- decidable equality of keys. `from_annotation` recurses on fuel: the length of the annotation plus
-- one, which is enough because every generic argument is shorter than the annotation it stands in.
--
-- An index into a `Vec` that may be out of range, where the source panics, is an `Option`, so that a
-- lookup may return an `Option` of an `Option`. The walks from a symbol to its containers recurse on
-- fuel, the number of the document's symbols and one or two more: every container stands before what
-- it contains. The standard library's hasher is a parameter, a function of what is written into it.
--
-- Not modelled: tree-sitter, and with it the walks that find the nodes of interest; the language
-- server's protocol, its threads and its files; the extraction of symbols from the tree, diagnostics,
-- completion and the formatter.

pub mod Base
pub mod ReachingDefs
pub mod LineIndex
pub mod Types
pub mod Registry
pub mod EditPlan
pub mod Symbols
pub mod Assign
pub mod Workspace
pub mod SymbolDb
pub mod SemanticTokens
pub mod Tests
