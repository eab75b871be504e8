-- ===== src/Tests/Index.antt =====
-- Two documents in the index, the second changed and the first removed.
use witcherscript_language.Base.{
  ℕ, ◌≡◌, refl, false, not, none, some, List, [], ◌∷◌, ◌++◌, codes, text_eq, get, put, without,
  filter, find, contains, any, push_value,
}
use witcherscript_language.Registry.Defs.{ObservedKey, top_level_key}
use witcherscript_language.Symbols.Kinds.{class, field, extends_by_type_name}
use witcherscript_language.Symbols.Symbol.{
  Symbol, type_name, requires_import, annotation_target_class_safe, annotation_target_class,
  injecting_annotation,
}
use witcherscript_language.Workspace.Defs.{
  global_catalog_changed, WorkspaceIndex, DocContribution, merge_ws_base,
}
use witcherscript_language.Workspace.Keys.{
  changed_keys, dropped_keys, keys_of, observed_key, Written, diff_outward_keys,
}
use witcherscript_language.Workspace.Index.{
  define, insert_into_indices, insert_symbol, insert_extension, insert_state, remove_from_indices,
  remove_each, remove_symbol,
}
use witcherscript_language.Workspace.Update.{
  contributed, follow_keys, maybe_rebuild_completion_catalog, rebuild_completion_catalog,
  empty_index, apply_contribution, remove_document, begin_bulk_catalog_update,
}
use witcherscript_language.Workspace.Channel.{other, values_in, documents_of}
use witcherscript_language.Workspace.Channel.TopLevel.{top_level_channel}
use witcherscript_language.Workspace.Tracked.{values-apply_contribution, values-remove_document}
use witcherscript_language.Workspace.Maps.{IsTracked, always}
use witcherscript_language.Workspace.Reachable.{
  Reachable, started, later, applied, removed, begun, Reachable-IsTracked,
}
use witcherscript_language.Workspace.Lookup.{find_top_level, annotated_members}
use witcherscript_language.Workspace.Stale.{annotated_members-remove_symbol}
use witcherscript_language.Workspace.Found.{Declared, find_top_level-Declared}
use witcherscript_language.Workspace.Catalogs.{
  merge_ws_base_lem, equal_hashes, contains-diff_outward_keys,
}
use witcherscript_language.Tests.Document.{plain}

abbrev actor : Symbol
actor = plain (codes "CActor") class 0 40 none

abbrev player : Symbol
player = record (plain (codes "CPlayer") class 0 40 none) { base_class = some (codes "CActor") }

abbrev contribution : Symbol → ℕ → DocContribution
contribution s hash = record {
  symbols = s ∷ [];
  idents = [];
  surface_hash = hash;
  outward = (top_level_key s.name, hash) ∷ [];
}

abbrev first_update : WorkspaceIndex
first_update = (apply_contribution (codes "a.ws") (contribution actor 5) empty_index).0

abbrev second_update : WorkspaceIndex
second_update = (apply_contribution (codes "b.ws") (contribution player 6) first_update).0

second_update-Reachable : Reachable second_update
unfolding annotation_target_class_safe
second_update-Reachable =
    later (later started (applied (codes "a.ws") (contribution actor 5) (refl, tt)))
      (applied (codes "b.ws") (contribution player 6) (refl, tt))

after-Reachable :
    Reachable (begin_bulk_catalog_update (remove_document (codes "a.ws") second_update).0)
after-Reachable = later (later second_update-Reachable (removed (codes "a.ws"))) begun

Reachable-IsTracked_example :
    IsTracked (begin_bulk_catalog_update (remove_document (codes "a.ws") second_update).0)
Reachable-IsTracked_example = Reachable-IsTracked after-Reachable

second_update-IsTracked : IsTracked second_update
second_update-IsTracked = Reachable-IsTracked second_update-Reachable

values-apply_contribution_example :
    top_level_channel.values
      (apply_contribution (codes "b.ws") (contribution actor 7) second_update).0
      (codes "CActor")
    ≡ filter
        (other top_level_channel (codes "b.ws"))
        (top_level_channel.values second_update (codes "CActor"))
      ++ values_in top_level_channel (codes "b.ws") (actor ∷ []) (codes "CActor")
values-apply_contribution_example =
    values-apply_contribution top_level_channel (codes "b.ws") (contribution actor 7) second_update
      (codes "CActor") second_update-IsTracked.top_level
      (always (documents_of second_update (codes "b.ws")))

values-remove_document_example :
    top_level_channel.values (remove_document (codes "a.ws") second_update).0 (codes "CActor")
    ≡ filter
        (other top_level_channel (codes "a.ws"))
        (top_level_channel.values second_update (codes "CActor"))
values-remove_document_example =
    values-remove_document top_level_channel (codes "a.ws") second_update (codes "CActor")
      second_update-IsTracked.top_level (always (documents_of second_update (codes "a.ws")))

found : find_top_level second_update (codes "CPlayer") ≡ some (define (codes "b.ws") player)
unfolding find_top_level find get put without text_eq apply_contribution contributed follow_keys
    maybe_rebuild_completion_catalog global_catalog_changed any diff_outward_keys changed_keys
    dropped_keys keys_of rebuild_completion_catalog insert_into_indices insert_symbol
    insert_extension insert_state remove_from_indices remove_each requires_import
    annotation_target_class_safe push_value extends_by_type_name type_name empty_index define
found = refl

find_top_level-Declared_example :
    Declared top_level_channel second_update (codes "CPlayer") (define (codes "b.ws") player)
find_top_level-Declared_example =
    find_top_level-Declared second_update (codes "CPlayer") (define (codes "b.ws") player)
      second_update-IsTracked found

merge_ws_base_lem_example :
    merge_ws_base
      (define (codes "a.ws") actor ∷ [])
      (define (codes "b.ws") actor ∷ define (codes "b.ws") player ∷ [])
    ≡ define (codes "a.ws") actor ∷ define (codes "b.ws") player ∷ []
unfolding filter contains type_name text_eq define
merge_ws_base_lem_example =
    merge_ws_base_lem (define (codes "a.ws") actor ∷ [])
      (define (codes "b.ws") actor ∷ define (codes "b.ws") player ∷ [])

abbrev hashes : ℕ → List (ObservedKey × ℕ)
hashes h = (top_level_key (codes "CActor"), h) ∷ []

contains-diff_outward_keys_example :
    contains observed_key
      (top_level_key (codes "CActor"))
      (diff_outward_keys (some (hashes 4)) (hashes 5))
    ≡ not (
        equal_hashes
          (get observed_key (top_level_key (codes "CActor")) (hashes 4))
          (get observed_key (top_level_key (codes "CActor")) (hashes 5)))
contains-diff_outward_keys_example =
    contains-diff_outward_keys (hashes 4) (hashes 5) (top_level_key (codes "CActor"))
      (unfold get in (refl, tt))

abbrev no_hash : List Written → ℕ
no_hash written = 0

-- a field in a class body with `@addField(CActor)`
abbrev added_field : Symbol
added_field = record (plain (codes "speed") field 10 20 (some 0)) {
  container_name = some (codes "CPlayer");
  annotations = record { name = codes "addField"; argument = some (codes "CActor") } ∷ [];
}

field_target : annotation_target_class_safe added_field ≡ some (codes "CActor")
unfolding annotation_target_class_safe annotation_target_class injecting_annotation find contains
    text_eq
field_target = refl

field_scripted : requires_import added_field ≡ false
unfolding requires_import
field_scripted = refl

annotated_members-remove_symbol_example :
    annotated_members
      (remove_symbol
        (codes "b.ws")
        added_field
        (insert_symbol (codes "b.ws") added_field second_update))
      (codes "CActor")
      (codes "speed")
    ≡ annotated_members second_update (codes "CActor") (codes "speed")
      ++ define (codes "b.ws") added_field ∷ []
annotated_members-remove_symbol_example =
    annotated_members-remove_symbol (codes "b.ws") (codes "CActor") added_field second_update
      field_scripted refl field_target
