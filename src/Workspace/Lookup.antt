-- ===== src/Workspace/Lookup.antt =====
-- Lookups in the index (src/resolve/workspace_index/lookup.rs).
use witcherscript_language.Base.{
  ◌==◌, Bool, true, false, not, ◌&&◌, Option, none, some, List, [], ◌∷◌, ◌++◌, Text, text_eq,
  text_key, get, map_or, or_else, is_some, filter, find, entry, nested_entry, inner_map,
  if◌then◌else◌, ◌>>=◌, map,
}
use witcherscript_language.EditPlan.Defs.{Range}
use witcherscript_language.Symbols.Kinds.{
  function, event, struct, is_type, AccessLevel, access_le, SymbolKind, SymbolOrigin, state,
  parameter, kind_eq, native,
}
use witcherscript_language.Symbols.Symbol.{Symbol, SymbolId}
use witcherscript_language.Workspace.Defs.{
  Definition, WorkspaceIndex, all_values, last, last_values,
}

-- `first()`
abbrev pub first {ℓ} : {A : Type ℓ} → List A → Option A
first [] = none
first (x ∷ l) = some x

abbrev pub find_option {ℓ} : {A : Type ℓ} → (A → Bool) → Option A → Option A
find_option p o = o >>= λ a. if p a then some a else none

-- an explicit declaration wins over a state
unfoldable pub find_top_level : WorkspaceIndex → Text → Option Definition
unfolding get find
find_top_level self name = get text_key name self.top_level_by_name >>= λ defs.
    or_else (find (λ d. not (kind_eq d.symbol.kind state)) defs) (first defs)

-- the syntactic position of a name (src/resolve/name_context.rs)
pub data NameContext : Type 0 where
  type_context : NameContext
  state_extends : Text → NameContext
  callable : NameContext
  value_context : NameContext

unfoldable pub accepts : NameContext → SymbolKind → Bool
unfolding is_type
accepts type_context kind = is_type kind
accepts (state_extends owner_class) kind = kind_eq kind state
accepts callable kind = elim kind [ function ↦ true | event ↦ true | struct ↦ true | _ ↦ false ]
accepts value_context kind = true

unfoldable pub find_top_level_filtered : WorkspaceIndex → Text → NameContext → Option Definition
unfolding get find accepts
find_top_level_filtered self name ctx =
    get text_key name self.top_level_by_name >>= λ defs. find (λ d. accepts ctx d.symbol.kind) defs

unfoldable pub all_top_level_with_name : WorkspaceIndex → Text → List Definition
unfolding get
all_top_level_with_name self name = entry text_key name self.top_level_by_name

unfoldable pub find_state_in_owner : WorkspaceIndex → Text → Text → Option Definition
unfolding get last
find_state_in_owner self owner name =
    get text_key owner self.states_by_owner >>= λ states. get text_key name states >>= last

-- `values().filter_map(|states| states.get(name)?.last())`
unfoldable pub states_in_each : Text → List (Text × List (Text × List Definition)) → List Definition
unfolding get last
states_in_each name [] = []
states_in_each name ((owner, states) ∷ m) = elim (get text_key name states >>= last) [
  | none ↦ states_in_each name m
  | some d ↦ d ∷ states_in_each name m
]

unfoldable pub states_named : WorkspaceIndex → Text → List Definition
unfolding states_in_each
states_named self name = states_in_each name self.states_by_owner

unfoldable pub find_enum_member : WorkspaceIndex → Text → Option Definition
unfolding get last
find_enum_member self name = get text_key name self.enum_member_by_name >>= last

unfoldable pub all_top_level : WorkspaceIndex → List (Text × Symbol)
unfolding filter
all_top_level self = pairs self.documents
  where
    pairs : List (Text × List Symbol) → List (Text × Symbol)
    pairs [] = []
    pairs ((uri, ss) ∷ m) =
        map {A = Symbol} {B = Text × Symbol} (λ s. (uri, s))
          (filter (λ s. not (is_some s.container)) ss)
        ++ pairs m

-- the last declaration in the body of the type
unfoldable pub class_body_member_of : WorkspaceIndex → Text → Text → Option Definition
unfolding get last
class_body_member_of self container_name name =
    get text_key container_name self.member_by_type >>= λ members.
    get text_key name members >>= last

abbrev pub accessible : AccessLevel → Definition → Bool
accessible min_access d = access_le min_access d.symbol.access

unfoldable pub direct_member_of : WorkspaceIndex → Text → Text → AccessLevel → Option Definition
unfolding class_body_member_of get
direct_member_of self container_name name min_access = find_option (accessible min_access) (
    or_else (class_body_member_of self container_name name) (
      get text_key container_name self.annotated_members_by_type >>= λ members.
      get text_key name members >>= first))

unfoldable pub class_body_members_of : WorkspaceIndex → Text → List Definition
unfolding get last_values
class_body_members_of self container_name =
    last_values (inner_map text_key text_key container_name self.member_by_type)

unfoldable pub direct_members_of : WorkspaceIndex → Text → AccessLevel → List Definition
unfolding class_body_members_of get all_values filter
direct_members_of self container_name min_access = filter (accessible min_access) (
    class_body_members_of self container_name
    ++ all_values (inner_map text_key text_key container_name self.annotated_members_by_type))

unfoldable pub annotated_members : WorkspaceIndex → Text → Text → List Definition
unfolding get
annotated_members self container_name name =
    nested_entry text_key text_key container_name name self.annotated_members_by_type

abbrev pub is_native : SymbolOrigin → Bool
is_native native = true
is_native _ = false

unfoldable pub find_native_top_level : WorkspaceIndex → Text → Option Definition
unfolding get last find
find_native_top_level self name =
    or_else (get text_key name self.native_functions_by_name >>= last) (
      get text_key name self.top_level_by_name >>= λ defs.
      find (λ d. is_native d.symbol.origin) defs)

unfoldable pub direct_native_member_of : WorkspaceIndex → Text → Text → Option Definition
unfolding get last
direct_native_member_of self container_name name =
    get text_key container_name self.native_member_by_type >>= λ members.
    get text_key name members >>= last

unfoldable pub superclass_of : WorkspaceIndex → Text → Option Text
unfolding get last
superclass_of self class_name =
    get text_key class_name self.superclass_by_name >>= last >>= λ p. some p.1

unfoldable pub direct_subclasses_of : WorkspaceIndex → Text → List Text
unfolding get
direct_subclasses_of self base =
    map {A = Text × Text} {B = Text} (λ p. p.1) (entry text_key base self.subclasses_by_name)

abbrev pub range_eq : Range → Range → Bool
range_eq a b = a.start == b.start && a.end == b.end

unfoldable pub find_symbol_at_selection : WorkspaceIndex → Text → Range → Option Symbol
unfolding get find
find_symbol_at_selection self uri selection =
    get text_key uri self.documents >>= find (λ s. range_eq s.selection_byte_range selection)

unfoldable pub find_symbol_by_name : WorkspaceIndex → Text → Text → Option Symbol
unfolding get find
find_symbol_by_name self uri name =
    get text_key uri self.documents >>= find (λ s. text_eq s.name name)

abbrev pub same_container : SymbolId → Option SymbolId → Bool
same_container callable_id o = map_or o false (λ id. id == callable_id)

unfoldable pub full_parameters_of : WorkspaceIndex → Text → SymbolId → List Symbol
unfolding get filter
full_parameters_of self uri callable_id =
    map_or (get text_key uri self.documents) []
      (filter (λ s. kind_eq s.kind parameter && same_container callable_id s.container))

-- the completion catalog, and what is indexed of a document's occurrences of names
unfoldable pub is_indexed : WorkspaceIndex → Text → Bool
unfolding get
is_indexed self uri = is_some (get text_key uri self.doc_idents)

unfoldable pub ident_ranges_in_doc : WorkspaceIndex → Text → Text → Option (List Range)
unfolding get
ident_ranges_in_doc self uri name = get text_key uri self.doc_idents >>= get text_key name
