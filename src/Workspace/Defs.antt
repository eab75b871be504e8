-- ===== src/Workspace/Defs.antt =====
-- Definitions, the completion catalogs (src/resolve/completion_catalog.rs), and the records of the
-- index (src/resolve/workspace_index/mod.rs).
use witcherscript_language.Base.{
  ℕ, Bool, true, false, ◌&&◌, not, Option, none, some, List, [], ◌∷◌, ◌++◌, map, Text, text_key,
  Assoc, contains, filter, any, is_empty, length, ◌==◌, if◌then◌else◌,
}
use witcherscript_language.EditPlan.Defs.{Range}
use witcherscript_language.Registry.Defs.{ObservedKey, top_level_key, member_key, enum_member_key}
use witcherscript_language.Symbols.Kinds.{FuncFlavour, exec, quest, SymbolKind, function, is_type}
use witcherscript_language.Symbols.Symbol.{Symbol, type_name}

pub record Definition : Type 0 where
  pub uri : Text
  pub symbol : Symbol

abbrev pub Entries : Type 0 → Type 0
Entries V = Assoc Text (List V)

abbrev pub Nested : Type 0 → Type 0
Nested V = Assoc Text (Entries V)

pub record CompletionCatalog : Type 0 where
  pub callables : List Definition
  pub types : List Definition
  pub enum_members : List Definition

unfoldable pub global_catalog_changed : List ObservedKey → Bool
unfolding any
global_catalog_changed keys =
    any (λ k. elim k [ top_level_key _ ↦ true | enum_member_key _ ↦ true | member_key _ _ ↦ false ])
      keys

-- `values().flat_map(..)`
unfoldable pub all_values {ℓ} : {V : Type ℓ} {K : Type 0} → List (K × List V) → List V
all_values [] = []
all_values ((k, l) ∷ m) = l ++ all_values m

unfoldable pub last {ℓ} : {A : Type ℓ} → List A → Option A
last [] = none
last (x ∷ xs) = let rest = last xs in if is_empty xs then some x else rest

-- `values().filter_map(|v| v.last())`
unfoldable pub last_values {ℓ} : {V : Type ℓ} {K : Type 0} → List (K × List V) → List V
unfolding last
last_values [] = []
last_values ((k, l) ∷ m) = elim (last l) [ none ↦ last_values m | some v ↦ v ∷ last_values m ]

abbrev pub offered_flavour : Option FuncFlavour → Bool
offered_flavour (some exec) = false
offered_flavour (some quest) = false
offered_flavour _ = true

abbrev pub is_function : SymbolKind → Bool
is_function function = true
is_function _ = false

unfoldable pub build_callables : Entries Definition → List Definition
unfolding all_values filter
build_callables top_level =
    filter (λ d. is_function d.symbol.kind && offered_flavour d.symbol.flavour)
      (all_values top_level)

unfoldable pub build_types : Entries Definition → List Definition
unfolding all_values filter is_type
build_types top_level = filter (λ d. is_type d.symbol.kind) (all_values top_level)

unfoldable pub build_enum_members : Entries Definition → List Definition
unfolding last_values
build_enum_members enum_member_by_name = last_values enum_member_by_name

abbrev pub type_names : List Definition → List Text
type_names defs = map {A = Definition} {B = Text} (λ d. type_name d.symbol) defs

abbrev pub shows : List Definition → Definition → Bool
shows ws d = not (contains text_key (type_name d.symbol) (type_names ws))

unfoldable pub merge_ws_base : List Definition → List Definition → List Definition
unfolding contains filter is_empty type_name
merge_ws_base ws base =
    if is_empty base
    then ws
    else if is_empty ws
    then base
    else let extra : ℕ = length (filter (shows ws) base) in
      if extra == 0 then ws else ws ++ filter (shows ws) base

-- the second loop of `merge_ws_base_three`, with the set of shadowed names
unfoldable pub merge_rest : List Text → List Definition → List Definition
unfolding contains type_name
merge_rest shadowed [] = []
merge_rest shadowed (d ∷ defs) = elim (contains text_key (type_name d.symbol) shadowed) [
  | true ↦ merge_rest shadowed defs
  | false ↦ d ∷ merge_rest (type_name d.symbol ∷ shadowed) defs
]

unfoldable pub merge_ws_base_three :
    List Definition → List Definition → List Definition → List Definition
unfolding merge_rest
merge_ws_base_three ws base builtins = ws ++ merge_rest (type_names ws) (base ++ builtins)

pub record WorkspaceIndex : Type 0 where
  pub documents : Entries Symbol
  pub top_level_by_name : Entries Definition
  pub enum_member_by_name : Entries Definition
  pub superclass_by_name : Entries (Text × Text)
  pub subclasses_by_name : Entries (Text × Text)
  pub states_by_owner : Nested Definition
  pub member_by_type : Nested Definition
  pub annotated_members_by_type : Nested Definition
  pub native_functions_by_name : Entries Definition
  pub native_member_by_type : Nested Definition
  pub doc_idents : Assoc Text (Entries Range)
  pub doc_surface_hashes : Assoc Text ℕ
  pub surface_hash : ℕ
  pub generation : ℕ
  pub doc_outward_hashes : Assoc Text (Assoc ObservedKey ℕ)
  pub completion_catalog : CompletionCatalog
  pub completion_catalog_dirty : Bool
  pub catalog_rebuild_suppressed : ℕ

pub record DocContribution : Type 0 where
  pub symbols : List Symbol
  pub idents : Entries Range
  pub surface_hash : ℕ
  pub outward : Assoc ObservedKey ℕ
