-- ===== src/Symbols/Document.antt =====
-- `DocumentSymbols` (src/symbols/types.rs). In a result `Option (Option A)` the outer `none` stands
-- for an index out of range, which panics, or for a chain of containers that does not end.
use witcherscript_language.Base.{
  push_value, push_nested, ℕ, zero, suc, ◌+◌, ◌-◌, ◌==◌, Bool, true, false, ◌&&◌, ◌||◌, not, Option,
  none, some, List, [], ◌∷◌, ◌++◌, map, reverse, Text, text_key, nat_key, Assoc, get, get_elem?,
  length, filter, any, is_some, sort_by_key, unwrap_or, map_or, leb, if◌then◌else◌, ◌>>=◌,
}
use witcherscript_language.Symbols.Kinds.{
  SymbolKind, SymbolOrigin, state, variable, parameter, kind_eq, is_object_kind, is_callable,
}
use witcherscript_language.Symbols.Symbol.{
  SymbolId, Symbol, type_name, annotation_target_class_safe,
}

pub record DocumentSymbols : Type 0 where
  pub symbols : List Symbol
  pub by_start_byte : List SymbolId
  pub top_level_by_name : Assoc Text (List SymbolId)
  pub type_by_name : Assoc Text (List SymbolId)
  pub members_by_container : Assoc SymbolId (Assoc Text (List SymbolId))
  pub locals_in_function : Assoc SymbolId (Assoc Text (List SymbolId))

-- `DocumentSymbols::default()`
abbrev pub no_symbols : DocumentSymbols
no_symbols = record {
  symbols = [];
  by_start_byte = [];
  top_level_by_name = [];
  type_by_name = [];
  members_by_container = [];
  locals_in_function = [];
}

unfoldable pub by_id : DocumentSymbols → SymbolId → Option Symbol
by_id self id = get_elem? self.symbols id

abbrev pub same_id : Option SymbolId → Option SymbolId → Bool
same_id none none = true
same_id (some a) (some b) = a == b
same_id _ _ = false

unfoldable pub children_of : DocumentSymbols → Option SymbolId → List Symbol
unfolding filter
children_of self id = filter (λ s. same_id s.container id) self.symbols

-- the first symbol of some ids that passes a test
unfoldable pub find_id : List Symbol → (Symbol → Bool) → List SymbolId → Option (Option Symbol)
find_id symbols accept [] = some none
find_id symbols accept (id ∷ ids) =
    let rest = find_id symbols accept ids in
    get_elem? symbols id >>= λ s. if accept s then some (some s) else rest

unfoldable pub symbols_at : List Symbol → List SymbolId → Option (List Symbol)
symbols_at symbols [] = some []
symbols_at symbols (id ∷ ids) =
    let rest = symbols_at symbols ids in get_elem? symbols id >>= λ s. rest >>= λ ss. some (s ∷ ss)

abbrev pub not_state : Symbol → Bool
not_state s = not (kind_eq s.kind state)

-- the first that is no state, or else the first
unfoldable pub prefer_no_state : List Symbol → List SymbolId → Option (Option Symbol)
unfolding find_id
prefer_no_state symbols ids = find_id symbols not_state ids >>= λ r. elim r [
  | some s ↦ some (some s)
  | none ↦ find_id symbols (λ s. true) ids
]

unfoldable pub top_level_by_name : DocumentSymbols → Text → Option (Option Symbol)
unfolding prefer_no_state get
top_level_by_name self n = elim (get text_key n self.top_level_by_name) [
  | none ↦ some none
  | some ids ↦ prefer_no_state self.symbols ids
]

unfoldable pub top_level_by_name_filtered :
    DocumentSymbols → Text → (SymbolKind → Bool) → Option (Option Symbol)
unfolding find_id get
top_level_by_name_filtered self n accept = elim (get text_key n self.top_level_by_name) [
  | none ↦ some none
  | some ids ↦ find_id self.symbols (λ s. accept s.kind) ids
]

unfoldable pub type_by_name : DocumentSymbols → Text → Option (Option Symbol)
unfolding prefer_no_state get
type_by_name self n = elim (get text_key n self.type_by_name) [
  | none ↦ some none
  | some ids ↦ prefer_no_state self.symbols ids
]

unfoldable pub type_by_name_filtered :
    DocumentSymbols → Text → (SymbolKind → Bool) → Option (Option Symbol)
unfolding find_id get
type_by_name_filtered self n accept = elim (get text_key n self.type_by_name) [
  | none ↦ some none
  | some ids ↦ find_id self.symbols (λ s. accept s.kind) ids
]

-- the ids under two keys, one after the other
unfoldable pub nested :
    Assoc SymbolId (Assoc Text (List SymbolId)) → SymbolId → Text → Option (List SymbolId)
unfolding get
nested outer id n = get nat_key id outer >>= λ by_name. get text_key n by_name

unfoldable pub member_of : DocumentSymbols → SymbolId → Text → Option (List Symbol)
unfolding nested symbols_at
member_of self container n =
    symbols_at self.symbols (unwrap_or (nested self.members_by_container container n) [])

unfoldable pub local_at_byte : DocumentSymbols → SymbolId → Text → ℕ → Option (Option Symbol)
unfolding nested find_id
local_at_byte self function n before_byte = elim (nested self.locals_in_function function n) [
  | none ↦ some none
  | some ids ↦
      find_id self.symbols (λ s. leb s.selection_byte_range.start before_byte) (reverse ids)
]

unfoldable pub set_origin : SymbolOrigin → DocumentSymbols → DocumentSymbols
set_origin origin self = record self {
  symbols = map {A = Symbol} {B = Symbol} (λ s. record s { origin = origin }) self.symbols;
}

unfoldable pub push : Symbol → DocumentSymbols → DocumentSymbols × SymbolId
push symbol self =
    let id = length self.symbols in
    (record self { symbols = self.symbols ++ record symbol { id = id } ∷ [] }, id)

-- the first loop of `build_indexes`
unfoldable pub index_container : Symbol → DocumentSymbols → DocumentSymbols
unfolding annotation_target_class_safe push_value push_nested type_name
index_container sym self = elim sym.container [
  | none ↦ if is_some (annotation_target_class_safe sym) then self else record self {
    top_level_by_name = push_value text_key (type_name sym) sym.id self.top_level_by_name;
  }
  | some container ↦ record self {
    members_by_container =
        push_nested nat_key text_key container sym.name sym.id self.members_by_container;
  }
]

unfoldable pub index_type : Symbol → DocumentSymbols → DocumentSymbols
unfolding push_value is_object_kind type_name
index_type sym self =
    if is_object_kind sym.kind
    then record self { type_by_name = push_value text_key (type_name sym) sym.id self.type_by_name }
    else self

unfoldable pub index_each : List Symbol → DocumentSymbols → DocumentSymbols
unfolding index_container index_type
index_each [] self = self
index_each (sym ∷ rest) self = index_each rest (index_type sym (index_container sym self))

-- the loop of `enclosing_callable_id`
unfoldable pub callable_from : ℕ → List Symbol → SymbolId → Option (Option SymbolId)
unfolding is_callable
callable_from zero symbols current = none
callable_from (suc fuel) symbols current = map_or (get_elem? symbols current) (some none) λ owner.
    if is_callable owner.kind
    then some (some current)
    else map_or owner.container (some none) (λ outer. callable_from fuel symbols outer)

unfoldable pub enclosing_callable_id : List Symbol → Symbol → Option (Option SymbolId)
unfolding callable_from
enclosing_callable_id symbols sym =
    map_or sym.container (some none) (callable_from (length symbols + 1) symbols)

abbrev pub is_local : SymbolKind → Bool
is_local variable = true
is_local parameter = true
is_local _ = false

-- the second loop
unfoldable pub index_locals :
    List Symbol
    → List Symbol
    → Assoc SymbolId (Assoc Text (List SymbolId))
    → Option (Assoc SymbolId (Assoc Text (List SymbolId)))
unfolding enclosing_callable_id push_nested
index_locals symbols [] locals = some locals
index_locals symbols (sym ∷ rest) locals =
    let others = index_locals symbols rest locals in
    if is_local sym.kind
    then (enclosing_callable_id symbols sym >>= λ found. map_or found others (λ function.
        index_locals symbols rest (push_nested nat_key text_key function sym.name sym.id locals)))
    else others

-- a key of the symbol at an id, 0 out of range, where `checked_sort` does not get
abbrev pub key_at : List Symbol → (Symbol → ℕ) → SymbolId → ℕ
key_at symbols key id = elim (get_elem? symbols id) [ none ↦ 0 | some s ↦ key s ]

unfoldable pub in_range : List Symbol → List SymbolId → Bool
in_range symbols [] = true
in_range symbols (id ∷ ids) = is_some (get_elem? symbols id) && in_range symbols ids

-- `sort_by_key` on `self.symbols[id.0]`: the key of every element is taken when there are two or
-- more, and panics out of range
unfoldable pub checked_sort : List Symbol → (Symbol → ℕ) → List SymbolId → Option (List SymbolId)
unfolding in_range sort_by_key
checked_sort symbols key ids =
    if leb (length ids) 1 || in_range symbols ids
    then some (sort_by_key (key_at symbols key) ids)
    else none

-- a step that may panic on each value of a map
unfoldable pub each_value : {K V : Type 0} → (V → Option V) → Assoc K V → Option (Assoc K V)
each_value f [] = some []
each_value f ((k, v) ∷ m) =
    let rest = each_value f m in f v >>= λ w. rest >>= λ others. some ((k, w) ∷ others)

abbrev pub indices_from : ℕ → ℕ → List ℕ
indices_from i zero = []
indices_from i (suc n) = i ∷ indices_from (i + 1) n

unfoldable pub build_indexes : DocumentSymbols → Option DocumentSymbols
unfolding index_each index_locals each_value checked_sort
build_indexes self =
    checked_sort self.symbols (λ s. s.byte_range.start) (indices_from 0 (length self.symbols))
    >>= λ by_start.
        let indexed = index_each self.symbols (record self { by_start_byte = by_start }) in
        index_locals self.symbols self.symbols indexed.locals_in_function >>= λ locals.
        each_value (each_value (checked_sort self.symbols (λ s. s.selection_byte_range.start)))
          locals
        >>= λ sorted. some (record indexed { locals_in_function = sorted })

-- `partition_point` of ids in ascending order of their symbols' starts
unfoldable pub starts_up_to : List Symbol → List SymbolId → ℕ → Option ℕ
starts_up_to symbols [] byte = some 0
starts_up_to symbols (id ∷ ids) byte =
    let rest = starts_up_to symbols ids byte in
    get_elem? symbols id >>= λ s.
    if leb s.byte_range.start byte then (rest >>= λ n. some (suc n)) else some 0

-- the loop of `enclosing_symbol_at`
unfoldable pub enclosing_from :
    ℕ → List Symbol → ℕ → List SymbolKind → Option SymbolId → Option (Option Symbol)
unfolding any
enclosing_from zero symbols byte kinds cursor = none
enclosing_from (suc fuel) symbols byte kinds none = some none
enclosing_from (suc fuel) symbols byte kinds (some id) = get_elem? symbols id >>= λ sym.
    if leb byte sym.byte_range.end && any (λ k. kind_eq k sym.kind) kinds
    then some (some sym)
    else enclosing_from fuel symbols byte kinds sym.container

unfoldable pub enclosing_symbol_at : DocumentSymbols → ℕ → List SymbolKind → Option (Option Symbol)
unfolding starts_up_to enclosing_from
enclosing_symbol_at self byte_offset kinds =
    starts_up_to self.symbols self.by_start_byte byte_offset >>= λ upper.
    if upper == 0
    then some none
    else (get_elem? self.by_start_byte (upper - 1) >>= λ last.
        enclosing_from (length self.symbols + 2) self.symbols byte_offset kinds (some last))
