-- ===== src/Workspace/Current.antt =====
-- How old the completion catalog can be (src/resolve/workspace_index/mod.rs and
-- src/resolve/completion_catalog.rs).
use witcherscript_language.Base.{ℕ, ◌<◌, ◌≡◌, ◌⊎◌, Bool, true, false, List, All, Text}
use witcherscript_language.Registry.Defs.{ObservedKey, member_key}
use witcherscript_language.Workspace.Defs.{WorkspaceIndex, DocContribution, CompletionCatalog}
use witcherscript_language.Workspace.Update.{catalog_of, apply_contribution, remove_document}
use witcherscript_language.Workspace.Reachable.{Reachable}

-- only members' keys
abbrev pub MembersOnly : List ObservedKey → Type 0
MembersOnly keys = All (λ k. (c : Text) × (n : Text) × (k ≡ member_key c n)) keys

-- reached from `origin` by updates that report no top-level and no enum member's key
pub data Quietly (origin : WorkspaceIndex) : WorkspaceIndex → Type 0 where
  here : Quietly origin origin
  by_update :
      {self : WorkspaceIndex} (uri : Text) (c : DocContribution)
      → Quietly origin self
      → MembersOnly (apply_contribution uri c self).1
      → Quietly origin (apply_contribution uri c self).0
  by_removal :
      {self : WorkspaceIndex} (uri : Text)
      → Quietly origin self
      → MembersOnly (remove_document uri self).1
      → Quietly origin (remove_document uri self).0
  by_bulk :
      {self : WorkspaceIndex} (suppressed : ℕ)
      → Quietly origin self
      → Quietly origin (record self { catalog_rebuild_suppressed = suppressed })

-- the catalog waits in a bulk update, or lists the index as it was at an origin
abbrev pub IsCurrent : WorkspaceIndex → Type 0
IsCurrent self =
    ((self.completion_catalog_dirty ≡ true) × (0 < self.catalog_rebuild_suppressed))
    ⊎ ((self.completion_catalog_dirty ≡ false)
        × (origin : WorkspaceIndex) × (self.completion_catalog ≡ catalog_of origin)
        × Quietly origin self)

abbrev Flags : Type 0
Flags = CompletionCatalog × Bool × ℕ

abbrev flags : WorkspaceIndex → Flags
flags self =
    (self.completion_catalog, self.completion_catalog_dirty, self.catalog_rebuild_suppressed)
