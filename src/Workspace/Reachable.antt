-- ===== src/Workspace/Reachable.antt =====
-- The index as a state machine: its updates as steps, and what holds of every index that they
-- reach (src/resolve/workspace_index/mod.rs).
use witcherscript_language.Base.{
  ◌-◌, sym, ◌∙◌, subst, Bool, true, false, ◌&&◌, List, [], Text, text_eq, Bool-cases, inl, inr,
  if◌then◌else◌, ◌==◌, get,
}
use witcherscript_language.Symbols.Symbol.{Symbol}
use witcherscript_language.Workspace.Defs.{WorkspaceIndex, DocContribution}
use witcherscript_language.Workspace.Index.{remove_from_indices}
use witcherscript_language.Workspace.Update.{
  contributed, withdrawn, apply_contribution, remove_document, changed_by,
  maybe_rebuild_completion_catalog, rebuild_completion_catalog, begin_bulk_catalog_update,
  end_bulk_catalog_update, empty_index,
}
use witcherscript_language.Workspace.Channel.{documents_of}
use witcherscript_language.Workspace.Maps.{
  Placed, IsTracked, apply_contribution-IsTracked, remove_document-IsTracked, empty_index-IsTracked,
}
use witcherscript_language.Workspace.Tracked.{
  documents-contributed, documents-withdrawn, documents-follow_keys,
}

pub data Step (self : WorkspaceIndex) : WorkspaceIndex → Type 0 where
  applied :
      (uri : Text) (c : DocContribution)
      → Placed c.symbols
      → Step self (apply_contribution uri c self).0
  removed : (uri : Text) → Step self (remove_document uri self).0
  begun : Step self (begin_bulk_catalog_update self)
  ended : Step self (end_bulk_catalog_update self)
  rebuilt : Step self (rebuild_completion_catalog self)

pub data Reachable : WorkspaceIndex → Type 0 where
  started : Reachable empty_index
  later : {self next : WorkspaceIndex} → Reachable self → Step self next → Reachable next

Placed-either :
    (b : Bool) (new old : List Symbol) → Placed new → Placed old → Placed (if b then new else old)
Placed-either true new old h k = h
Placed-either false new old h k = k

maybe_rebuild-keeps :
    (P : WorkspaceIndex → Type 0) (self : WorkspaceIndex)
    → P self
    → P (rebuild_completion_catalog self)
    → P (maybe_rebuild_completion_catalog self)
unfolding maybe_rebuild_completion_catalog
maybe_rebuild-keeps P self a b =
    elim (Bool-cases (self.completion_catalog_dirty && self.catalog_rebuild_suppressed == 0)) [
      | inl q ↦ rw q b
      | inr q ↦ rw q a
    ]

-- The symbols of every document have no annotation that adds them to a class when they have a
-- container.
AllPlaced : WorkspaceIndex → Type 0
AllPlaced self = (uri : Text) → Placed (documents_of self uri)

Step-AllPlaced : {self next : WorkspaceIndex} → Step self next → AllPlaced self → AllPlaced next
unfolding AllPlaced apply_contribution remove_document begin_bulk_catalog_update
    end_bulk_catalog_update rebuild_completion_catalog
Step-AllPlaced {self} (applied uri c placed) h at =
    subst Placed
      (sym (
        documents-follow_keys (changed_by uri c (remove_from_indices uri self))
          (contributed uri c self) at
        ∙ documents-contributed uri at c self))
      (Placed-either (text_eq uri at) c.symbols (documents_of self at) placed (h at))
Step-AllPlaced {self} (removed uri) h at =
    subst Placed
      (sym (
        documents-follow_keys (remove_document uri self).1 (withdrawn uri self) at
        ∙ documents-withdrawn uri at self))
      (Placed-either (text_eq uri at) [] (documents_of self at) tt (h at))
Step-AllPlaced begun h at = h at
Step-AllPlaced {self} ended h at =
    maybe_rebuild-keeps (λ i. Placed (documents_of i at))
      (record self { catalog_rebuild_suppressed = self.catalog_rebuild_suppressed - 1 }) (h at)
      (h at)
Step-AllPlaced rebuilt h at = h at

-- the maps and the documents are those of an index that is in step
same-IsTracked :
    (self : WorkspaceIndex) (catalog : WorkspaceIndex)
    → IsTracked self
    → IsTracked (record self {
      completion_catalog = catalog.completion_catalog;
      completion_catalog_dirty = catalog.completion_catalog_dirty;
      catalog_rebuild_suppressed = catalog.catalog_rebuild_suppressed;
    })
same-IsTracked self catalog t = record {
  top_level = t.top_level;
  superclasses = t.superclasses;
  native_functions = t.native_functions;
  native_members = t.native_members;
  members = t.members;
  enum_members = t.enum_members;
  states = t.states;
  annotated = t.annotated;
}

Step-IsTracked :
    {self next : WorkspaceIndex} → Step self next → AllPlaced self → IsTracked self → IsTracked next
unfolding AllPlaced begin_bulk_catalog_update end_bulk_catalog_update rebuild_completion_catalog
Step-IsTracked {self} (applied uri c placed) h t = apply_contribution-IsTracked uri c self t (h uri)
Step-IsTracked {self} (removed uri) h t = remove_document-IsTracked uri self t (h uri)
Step-IsTracked {self} begun h t = same-IsTracked self (begin_bulk_catalog_update self) t
Step-IsTracked {self} ended h t =
    let less : WorkspaceIndex = record self {
      catalog_rebuild_suppressed = self.catalog_rebuild_suppressed - 1;
    } in
    maybe_rebuild-keeps IsTracked less (same-IsTracked self less t)
      (same-IsTracked self (rebuild_completion_catalog less) t)
Step-IsTracked {self} rebuilt h t = same-IsTracked self (rebuild_completion_catalog self) t

Reachable-AllPlaced : {self : WorkspaceIndex} → Reachable self → AllPlaced self
unfolding AllPlaced empty_index get
Reachable-AllPlaced started uri = tt
Reachable-AllPlaced (later r st) uri = Step-AllPlaced st (Reachable-AllPlaced r) uri

-- In every index that updates, removals and bulk updates reach from the empty one, where no
-- contributed symbol has both a container and an annotation that adds it to a class, each map is in
-- step with the documents: under a key, a document's values are those of its symbols, in order.
pub Reachable-IsTracked : {self : WorkspaceIndex} → Reachable self → IsTracked self
Reachable-IsTracked started = empty_index-IsTracked
Reachable-IsTracked (later r st) = Step-IsTracked st (Reachable-AllPlaced r) (Reachable-IsTracked r)
