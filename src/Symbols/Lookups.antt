-- ===== src/Symbols/Lookups.antt =====
-- Looking names up in a document whose indices are built (src/symbols/types.rs).
use witcherscript_language.Base.{
  entry, ◌≡◌, refl, ap, ◌∙◌, Bool, ◌&&◌, Option, none, some, List, [], ◌∷◌, ◌++◌, Text, text_key,
  get, All, filter, find, unwrap_or, get_elem?, Bool-cases, inl, inr, if◌then◌else◌,
}
use witcherscript_language.Symbols.Kinds.{SymbolKind}
use witcherscript_language.Symbols.Symbol.{SymbolId, Symbol}
use witcherscript_language.Symbols.Document.{
  DocumentSymbols, find_id, build_indexes, top_level_by_name_filtered, type_by_name_filtered,
}
use witcherscript_language.Symbols.Kept.{build_indexes-Kept, ordered_by_start}
use witcherscript_language.Symbols.Indexes.{ids, top_test, type_test, top-each, type-each}

-- the id of each symbol is its index in `all`
abbrev pub IdsIn : List Symbol → List Symbol → Type 0
IdsIn every ss = All (λ s. get_elem? every s.id ≡ some s) ss

-- a document whose symbols have been pushed and whose indices have not been built
pub record IsFresh (self : DocumentSymbols) : Type 0 where
  pub ids_match : IdsIn self.symbols self.symbols
  pub no_top_level : self.top_level_by_name ≡ []
  pub no_types : self.type_by_name ≡ []
  pub no_members : self.members_by_container ≡ []
  pub no_locals : self.locals_in_function ≡ []

find_id-ids :
    (every : List Symbol) (accept : Symbol → Bool) (ss : List Symbol)
    → IdsIn every ss
    → find_id every accept (ids ss) ≡ some (find accept ss)
unfolding find_id find
find_id-ids every accept [] h = refl
find_id-ids every accept (s ∷ ss) (h, k) = elim (Bool-cases (accept s)) [
  | inl q ↦ rw (h, q) refl
  | inr q ↦ rw (h, q) (find_id-ids every accept ss k)
]

IdsIn-filter :
    (every : List Symbol) (p : Symbol → Bool) (ss : List Symbol)
    → IdsIn every ss
    → IdsIn every (filter p ss)
unfolding filter
IdsIn-filter every p [] h = tt
IdsIn-filter every p (s ∷ ss) (h, k) = elim (Bool-cases (p s)) [
  | inl q ↦ rw q (h, IdsIn-filter every p ss k)
  | inr q ↦ rw q (IdsIn-filter every p ss k)
]

find-filter :
    (p accept : Symbol → Bool) (ss : List Symbol)
    → find accept (filter p ss) ≡ find (λ s. p s && accept s) ss
unfolding find filter
find-filter p accept [] = refl
find-filter p accept (s ∷ ss) = elim (Bool-cases (p s)) [
  | inl q ↦ rw q (ap (λ r. if accept s then some s else r) (find-filter p accept ss))
  | inr q ↦ rw q (find-filter p accept ss)
]

-- a lookup is a search under the key's ids
search_entry :
    (every : List Symbol) (accept : Symbol → Bool) (o : Option (List SymbolId))
    → elim o [ none ↦ some none | some l ↦ find_id every accept l ]
      ≡ find_id every accept (unwrap_or o [])
unfolding find_id
search_entry every accept none = refl
search_entry every accept (some l) = refl

search_ids :
    (every : List Symbol) (p accept : Symbol → Bool) (l : List SymbolId)
    → IdsIn every every
    → l ≡ ids (filter p every)
    → find_id every accept l ≡ some (find (λ s. p s && accept s) every)
search_ids every p accept l h e =
    ap (find_id every accept) e
    ∙ find_id-ids every accept (filter p every) (IdsIn-filter every p every h)
    ∙ ap some (find-filter p accept every)

-- In a built document, the filtered lookup of a top-level name is the search through the symbols,
-- in order, for one without a container and without an injecting annotation, of that name and of an
-- accepted kind. It does not panic.
pub top_level_by_name_filtered-build_indexes :
    (self built : DocumentSymbols) (n : Text) (accept : SymbolKind → Bool)
    → IsFresh self
    → build_indexes self ≡ some built
    → top_level_by_name_filtered built n accept
      ≡ some (find (λ s. top_test n s && accept s.kind) self.symbols)
unfolding top_level_by_name_filtered
top_level_by_name_filtered-build_indexes self built n accept fresh e =
    let kept = build_indexes-Kept self built e in
    search_entry built.symbols (λ s. accept s.kind) (get text_key n built.top_level_by_name)
    ∙ ap (λ l. find_id l (λ s. accept s.kind) (entry text_key n built.top_level_by_name))
        kept.symbols
    ∙ search_ids self.symbols (top_test n) (λ s. accept s.kind)
        (entry text_key n built.top_level_by_name) fresh.ids_match
        (ap (entry text_key n) kept.top_level
          ∙ top-each self.symbols (ordered_by_start self) n
          ∙ ap (λ m. entry text_key n m ++ ids (filter (top_test n) self.symbols))
              fresh.no_top_level)

-- In a built document, the filtered lookup of a type is the search through the symbols, in order,
-- for a class, native type, struct or state of that type name and of an accepted kind. It does not
-- panic.
pub type_by_name_filtered-build_indexes :
    (self built : DocumentSymbols) (n : Text) (accept : SymbolKind → Bool)
    → IsFresh self
    → build_indexes self ≡ some built
    → type_by_name_filtered built n accept
      ≡ some (find (λ s. type_test n s && accept s.kind) self.symbols)
unfolding type_by_name_filtered
type_by_name_filtered-build_indexes self built n accept fresh e =
    let kept = build_indexes-Kept self built e in
    search_entry built.symbols (λ s. accept s.kind) (get text_key n built.type_by_name)
    ∙ ap (λ l. find_id l (λ s. accept s.kind) (entry text_key n built.type_by_name)) kept.symbols
    ∙ search_ids self.symbols (type_test n) (λ s. accept s.kind)
        (entry text_key n built.type_by_name) fresh.ids_match
        (ap (entry text_key n) kept.types
          ∙ type-each self.symbols (ordered_by_start self) n
          ∙ ap (λ m. entry text_key n m ++ ids (filter (type_test n) self.symbols)) fresh.no_types)
