-- ===== src/Workspace/Update.antt =====
-- A document's contribution, the completion catalog and the whole updates of the index
-- (src/resolve/workspace_index/mod.rs). The standard library's hasher is a parameter.
use witcherscript_language.Base.{
  ℕ, ◌+◌, ◌-◌, ◌%◌, ◌^◌, min, true, false, ◌&&◌, Option, List, [], Text, text_key, get, put,
  without, map_or, ◌==◌, if◌then◌else◌, bit_xor,
}
use witcherscript_language.EditPlan.Defs.{Range}
use witcherscript_language.Registry.Defs.{ObservedKey}
use witcherscript_language.Symbols.Symbol.{Symbol}
use witcherscript_language.Workspace.Defs.{
  Entries, CompletionCatalog, WorkspaceIndex, DocContribution, build_callables, build_types,
  build_enum_members, global_catalog_changed,
}
use witcherscript_language.Workspace.Keys.{
  Written, doc_surface_hash, outward_hash_map, keys_of, diff_outward_keys,
}
use witcherscript_language.Workspace.Index.{remove_from_indices, insert_into_indices}

-- `CompletionCatalog` of the indices as they are
unfoldable pub catalog_of : WorkspaceIndex → CompletionCatalog
unfolding build_callables build_types build_enum_members
catalog_of self = record {
  callables = build_callables self.top_level_by_name;
  types = build_types self.top_level_by_name;
  enum_members = build_enum_members self.enum_member_by_name;
}

unfoldable pub rebuild_completion_catalog : WorkspaceIndex → WorkspaceIndex
unfolding catalog_of
rebuild_completion_catalog self = record self {
  completion_catalog = catalog_of self;
  completion_catalog_dirty = false;
}

unfoldable pub maybe_rebuild_completion_catalog : WorkspaceIndex → WorkspaceIndex
unfolding rebuild_completion_catalog
maybe_rebuild_completion_catalog self =
    if self.completion_catalog_dirty && self.catalog_rebuild_suppressed == 0
    then rebuild_completion_catalog self
    else self

unfoldable pub begin_bulk_catalog_update : WorkspaceIndex → WorkspaceIndex
begin_bulk_catalog_update self = record self {
  catalog_rebuild_suppressed = min (self.catalog_rebuild_suppressed + 1) (2 ^ 32 - 1);
}

unfoldable pub end_bulk_catalog_update : WorkspaceIndex → WorkspaceIndex
unfolding maybe_rebuild_completion_catalog
end_bulk_catalog_update self =
    maybe_rebuild_completion_catalog
      (record self { catalog_rebuild_suppressed = self.catalog_rebuild_suppressed - 1 })

abbrev pub wrapping_next : ℕ → ℕ
wrapping_next generation = (generation + 1) % 2 ^ 64

-- the end of an update: the catalog follows the keys that changed
unfoldable pub follow_keys : List ObservedKey → WorkspaceIndex → WorkspaceIndex
unfolding global_catalog_changed maybe_rebuild_completion_catalog
follow_keys changed_keys self =
    if global_catalog_changed changed_keys
    then maybe_rebuild_completion_catalog (record self { completion_catalog_dirty = true })
    else self

-- `self.surface_hash ^= old_hash`, when the document had one
abbrev pub without_hash : Option ℕ → ℕ → ℕ
without_hash old surface = map_or old surface (bit_xor surface)

abbrev pub changed_by : Text → DocContribution → WorkspaceIndex → List ObservedKey
changed_by uri contribution self =
    diff_outward_keys (get text_key uri self.doc_outward_hashes) contribution.outward

-- the state behind the assignments of `apply_contribution`, before the catalog follows
unfoldable pub contributed : Text → DocContribution → WorkspaceIndex → WorkspaceIndex
unfolding remove_from_indices insert_into_indices get put without
contributed uri contribution self =
    let removed : WorkspaceIndex = remove_from_indices uri self in
    let inserted : WorkspaceIndex =
      insert_into_indices uri contribution.symbols
        (record removed { doc_idents = without text_key uri removed.doc_idents }) in
    record inserted {
      doc_idents = put text_key uri contribution.idents inserted.doc_idents;
      doc_surface_hashes = put text_key uri contribution.surface_hash inserted.doc_surface_hashes;
      surface_hash =
          bit_xor
            (without_hash (get text_key uri inserted.doc_surface_hashes) inserted.surface_hash)
            contribution.surface_hash;
      doc_outward_hashes = put text_key uri contribution.outward inserted.doc_outward_hashes;
      documents = put text_key uri contribution.symbols inserted.documents;
      generation = wrapping_next inserted.generation;
    }

unfoldable pub apply_contribution :
    Text → DocContribution → WorkspaceIndex → WorkspaceIndex × List ObservedKey
unfolding contributed follow_keys diff_outward_keys get
apply_contribution uri contribution self =
    let changed_keys : List ObservedKey =
      changed_by uri contribution (remove_from_indices uri self) in
    (follow_keys changed_keys (contributed uri contribution self), changed_keys)

-- the state behind the assignments of `remove_document`
unfoldable pub withdrawn : Text → WorkspaceIndex → WorkspaceIndex
unfolding remove_from_indices get without
withdrawn uri self =
    let removed : WorkspaceIndex = remove_from_indices uri self in
    record removed {
      doc_idents = without text_key uri removed.doc_idents;
      documents = without text_key uri removed.documents;
      doc_surface_hashes = without text_key uri removed.doc_surface_hashes;
      surface_hash =
          without_hash (get text_key uri removed.doc_surface_hashes) removed.surface_hash;
      doc_outward_hashes = without text_key uri removed.doc_outward_hashes;
      generation = wrapping_next removed.generation;
    }

unfoldable pub remove_document : Text → WorkspaceIndex → WorkspaceIndex × List ObservedKey
unfolding withdrawn follow_keys keys_of get
remove_document uri self =
    let changed_keys : List ObservedKey =
      map_or (get text_key uri (remove_from_indices uri self).doc_outward_hashes) [] keys_of in
    (follow_keys changed_keys (withdrawn uri self), changed_keys)

module _ (finish : List Written → ℕ) where
  -- `compute_contribution`, of a document's symbols and its occurrences of identifiers
  unfoldable pub compute_contribution : Text → List Symbol → Entries Range → DocContribution
  unfolding outward_hash_map doc_surface_hash
  compute_contribution uri symbols idents = record {
    symbols = symbols;
    idents = idents;
    surface_hash = doc_surface_hash finish uri symbols;
    outward = outward_hash_map finish symbols;
  }

  unfoldable pub update_document :
      Text → List Symbol → Entries Range → WorkspaceIndex → WorkspaceIndex × List ObservedKey
  unfolding compute_contribution apply_contribution
  update_document uri symbols idents self =
      apply_contribution uri (compute_contribution uri symbols idents) self

  unfoldable pub insert_synthetic :
      Text → List Symbol → WorkspaceIndex → WorkspaceIndex × List ObservedKey
  unfolding apply_contribution outward_hash_map doc_surface_hash
  insert_synthetic uri symbols self =
      apply_contribution uri
        (record {
          symbols = symbols;
          idents = [];
          surface_hash = doc_surface_hash finish uri symbols;
          outward = outward_hash_map finish symbols;
        })
        self

unfoldable pub empty_index : WorkspaceIndex
empty_index = record {
  documents = [];
  top_level_by_name = [];
  enum_member_by_name = [];
  superclass_by_name = [];
  subclasses_by_name = [];
  states_by_owner = [];
  member_by_type = [];
  annotated_members_by_type = [];
  native_functions_by_name = [];
  native_member_by_type = [];
  doc_idents = [];
  doc_surface_hashes = [];
  surface_hash = 0;
  generation = 0;
  doc_outward_hashes = [];
  completion_catalog = record { callables = []; types = []; enum_members = [] };
  completion_catalog_dirty = false;
  catalog_rebuild_suppressed = 0;
}
