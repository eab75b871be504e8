-- ===== src/Symbols/Indexes.antt =====
-- The name indices of a document against a search through its symbols (src/symbols/types.rs).
use witcherscript_language.Base.{
  entry, entry-push_value, ◌≡◌, refl, sym, ap, ◌∙◌, Bool, false, ◌&&◌, not, none, some, List, [],
  ◌∷◌, ◌++◌, append_assoc, append-nil, map, Text, text_eq, text_key, filter, is_some, Bool-cases,
  Option-cases, inl, inr, if◌then◌else◌,
}
use witcherscript_language.Symbols.Kinds.{is_object_kind}
use witcherscript_language.Symbols.Symbol.{
  SymbolId, Symbol, type_name, annotation_target_class_safe,
}
use witcherscript_language.Symbols.Document.{
  DocumentSymbols, index_container, index_type, index_each,
}

abbrev pub ids : List Symbol → List SymbolId
ids ss = map {A = Symbol} {B = SymbolId} (λ s. s.id) ss

-- a symbol that goes into the index of top-level names
abbrev pub is_top_level : Symbol → Bool
is_top_level s = elim s.container [
  | none ↦ not (is_some (annotation_target_class_safe s))
  | some c ↦ false
]

abbrev pub named : Text → Symbol → Bool
named n s = text_eq (type_name s) n

-- what one symbol adds to the ids that pass a test
abbrev pub added : (Symbol → Bool) → Symbol → List SymbolId
added p s = if p s then s.id ∷ [] else []

pub ids-filter :
    (p : Symbol → Bool) (s : Symbol) (ss : List Symbol)
    → ids (filter p (s ∷ ss)) ≡ added p s ++ ids (filter p ss)
unfolding filter
ids-filter p s ss = elim (Bool-cases (p s)) [ inl q ↦ rw q refl | inr q ↦ rw q refl ]

abbrev pub top_test : Text → Symbol → Bool
top_test n s = is_top_level s && named n s

abbrev pub type_test : Text → Symbol → Bool
type_test n s = is_object_kind s.kind && named n s

top-container :
    (s : Symbol) (self : DocumentSymbols) (n : Text)
    → entry text_key n (index_container s self).top_level_by_name
      ≡ entry text_key n self.top_level_by_name ++ added (top_test n) s
unfolding index_container
top-container s self n = elim (Option-cases s.container) [
  | inl out ↦ elim (Bool-cases (is_some (annotation_target_class_safe s))) [
    | inl q ↦ rw (out, q) (sym (append-nil _))
    | inr q ↦ rw (out, q) (entry-push_value text_key (type_name s) n s.id self.top_level_by_name)
  ]
  | inr (c, found) ↦ rw found (sym (append-nil _))
]

top-type :
    (s : Symbol) (self : DocumentSymbols)
    → (index_type s self).top_level_by_name ≡ self.top_level_by_name
unfolding index_type
top-type s self = elim (Bool-cases (is_object_kind s.kind)) [
  | inl q ↦ rw q refl
  | inr q ↦ rw q refl
]

type-container :
    (s : Symbol) (self : DocumentSymbols)
    → (index_container s self).type_by_name ≡ self.type_by_name
unfolding index_container
type-container s self = elim (Option-cases s.container) [
  | inl out ↦ elim (Bool-cases (is_some (annotation_target_class_safe s))) [
    | inl q ↦ rw (out, q) refl
    | inr q ↦ rw (out, q) refl
  ]
  | inr (c, found) ↦ rw found refl
]

type-type :
    (s : Symbol) (self : DocumentSymbols) (n : Text)
    → entry text_key n (index_type s self).type_by_name
      ≡ entry text_key n self.type_by_name ++ added (type_test n) s
unfolding index_type
type-type s self n = elim (Bool-cases (is_object_kind s.kind)) [
  | inl q ↦ rw q (entry-push_value text_key (type_name s) n s.id self.type_by_name)
  | inr q ↦ rw q (sym (append-nil _))
]

-- two steps of a loop that appends what each symbol adds
pub appended :
    (p : Symbol → Bool) (s : Symbol) (ss : List Symbol) (start mid end : List SymbolId)
    → end ≡ mid ++ ids (filter p ss)
    → mid ≡ start ++ added p s
    → end ≡ start ++ ids (filter p (s ∷ ss))
appended p s ss start mid end e f =
    e
    ∙ ap (λ l. l ++ ids (filter p ss)) f
    ∙ append_assoc start (added p s) (ids (filter p ss))
    ∙ ap (λ l. start ++ l) (sym (ids-filter p s ss))

pub top-each :
    (ss : List Symbol) (self : DocumentSymbols) (n : Text)
    → entry text_key n (index_each ss self).top_level_by_name
      ≡ entry text_key n self.top_level_by_name ++ ids (filter (top_test n) ss)
unfolding index_each filter
top-each [] self n = sym (append-nil _)
top-each (s ∷ ss) self n =
    let next = index_type s (index_container s self) in
    appended (top_test n) s ss (entry text_key n self.top_level_by_name)
      (entry text_key n next.top_level_by_name)
      (entry text_key n (index_each ss next).top_level_by_name) (top-each ss next n)
      (ap (λ m. entry text_key n m) (top-type s (index_container s self)) ∙ top-container s self n)

pub type-each :
    (ss : List Symbol) (self : DocumentSymbols) (n : Text)
    → entry text_key n (index_each ss self).type_by_name
      ≡ entry text_key n self.type_by_name ++ ids (filter (type_test n) ss)
unfolding index_each filter
type-each [] self n = sym (append-nil _)
type-each (s ∷ ss) self n =
    let next = index_type s (index_container s self) in
    appended (type_test n) s ss (entry text_key n self.type_by_name)
      (entry text_key n next.type_by_name) (entry text_key n (index_each ss next).type_by_name)
      (type-each ss next n)
      (type-type s (index_container s self) n
        ∙ ap (λ m. entry text_key n m ++ added (type_test n) s) (type-container s self))
