-- ===== src/Symbols/Kept.antt =====
-- What `build_indexes` leaves alone, and the order of its first index (src/symbols/types.rs).
use witcherscript_language.Base.{
  ℕ, leb, ◌||◌, ◌>>=◌, Assoc, sort_by_key, ◌≡◌, refl, sym, ap, ◌∙◌, Option, none, some, List, [],
  ◌∷◌, Text, is_some, unwrap_or, length, Bool-cases, Option-cases, inl, inr,
}
use witcherscript_language.Symbols.Kinds.{is_object_kind}
use witcherscript_language.Symbols.Symbol.{annotation_target_class_safe, SymbolId, Symbol}
use witcherscript_language.Symbols.Document.{
  index_container, index_type, each_value, checked_sort, in_range, key_at, indices_from,
  DocumentSymbols, index_each, index_locals, build_indexes,
}

container-symbols :
    (s : Symbol) (self : DocumentSymbols) → (index_container s self).symbols ≡ self.symbols
unfolding index_container
container-symbols s self = elim (Option-cases s.container) [
  | inl out ↦ elim (Bool-cases (is_some (annotation_target_class_safe s))) [
    | inl q ↦ rw (out, q) refl
    | inr q ↦ rw (out, q) refl
  ]
  | inr (c, found) ↦ rw found refl
]

type-symbols : (s : Symbol) (self : DocumentSymbols) → (index_type s self).symbols ≡ self.symbols
unfolding index_type
type-symbols s self = elim (Bool-cases (is_object_kind s.kind)) [
  | inl q ↦ rw q refl
  | inr q ↦ rw q refl
]

each-symbols :
    (ss : List Symbol) (self : DocumentSymbols) → (index_each ss self).symbols ≡ self.symbols
unfolding index_each
each-symbols [] self = refl
each-symbols (s ∷ ss) self =
    each-symbols ss (index_type s (index_container s self))
    ∙ type-symbols s (index_container s self)
    ∙ container-symbols s self

container-by_start :
    (s : Symbol) (self : DocumentSymbols)
    → (index_container s self).by_start_byte ≡ self.by_start_byte
unfolding index_container
container-by_start s self = elim (Option-cases s.container) [
  | inl out ↦ elim (Bool-cases (is_some (annotation_target_class_safe s))) [
    | inl q ↦ rw (out, q) refl
    | inr q ↦ rw (out, q) refl
  ]
  | inr (c, found) ↦ rw found refl
]

type-by_start :
    (s : Symbol) (self : DocumentSymbols) → (index_type s self).by_start_byte ≡ self.by_start_byte
unfolding index_type
type-by_start s self = elim (Bool-cases (is_object_kind s.kind)) [
  | inl q ↦ rw q refl
  | inr q ↦ rw q refl
]

each-by_start :
    (ss : List Symbol) (self : DocumentSymbols)
    → (index_each ss self).by_start_byte ≡ self.by_start_byte
unfolding index_each
each-by_start [] self = refl
each-by_start (s ∷ ss) self =
    each-by_start ss (index_type s (index_container s self))
    ∙ type-by_start s (index_container s self)
    ∙ container-by_start s self

container-locals :
    (s : Symbol) (self : DocumentSymbols)
    → (index_container s self).locals_in_function ≡ self.locals_in_function
unfolding index_container
container-locals s self = elim (Option-cases s.container) [
  | inl out ↦ elim (Bool-cases (is_some (annotation_target_class_safe s))) [
    | inl q ↦ rw (out, q) refl
    | inr q ↦ rw (out, q) refl
  ]
  | inr (c, found) ↦ rw found refl
]

type-locals :
    (s : Symbol) (self : DocumentSymbols)
    → (index_type s self).locals_in_function ≡ self.locals_in_function
unfolding index_type
type-locals s self = elim (Bool-cases (is_object_kind s.kind)) [
  | inl q ↦ rw q refl
  | inr q ↦ rw q refl
]

pub each-locals :
    (ss : List Symbol) (self : DocumentSymbols)
    → (index_each ss self).locals_in_function ≡ self.locals_in_function
unfolding index_each
each-locals [] self = refl
each-locals (s ∷ ss) self =
    each-locals ss (index_type s (index_container s self))
    ∙ type-locals s (index_container s self)
    ∙ container-locals s self

-- the document behind the first step of `build_indexes`
abbrev pub ordered_by_start : DocumentSymbols → DocumentSymbols
ordered_by_start self = record self {
  by_start_byte =
      sort_by_key (key_at self.symbols (λ s. s.byte_range.start))
        (indices_from 0 (length self.symbols));
}

abbrev pub indexed : DocumentSymbols → DocumentSymbols
indexed self = index_each self.symbols (ordered_by_start self)

-- what the second loop and the sorting leave alone
pub record Kept (self built : DocumentSymbols) : Type 0 where
  pub symbols : built.symbols ≡ self.symbols
  pub top_level : built.top_level_by_name ≡ (indexed self).top_level_by_name
  pub types : built.type_by_name ≡ (indexed self).type_by_name
  pub members : built.members_by_container ≡ (indexed self).members_by_container
  pub by_start : built.by_start_byte ≡ (ordered_by_start self).by_start_byte

pub checked_sort-sort_by_key :
    (every : List Symbol) (key : Symbol → ℕ) (l r : List SymbolId)
    → checked_sort every key l ≡ some r
    → sort_by_key (key_at every key) l ≡ r
unfolding checked_sort
checked_sort-sort_by_key every key l r e =
    elim (Bool-cases (leb (length l) 1 || in_range every l)) [
      | inl q ↦ ap (λ o. unwrap_or o r) (rw q at e)
      | inr q ↦ of_none (rw q at e)
    ]
  where
    of_none : ◌≡◌ {A = Option (List SymbolId)} none (some r) → sort_by_key (key_at every key) l ≡ r
    of_none h = cc

pub build_indexes-Kept :
    (self built : DocumentSymbols) → build_indexes self ≡ some built → Kept self built
unfolding build_indexes
build_indexes-Kept self built e =
    elim (Option-cases (
      checked_sort self.symbols (λ s. s.byte_range.start) (indices_from 0 (length self.symbols)))) [
        | inl out ↦ none_built (rw out at e)
        | inr (by_start, ordered) ↦
            let order =
              checked_sort-sort_by_key self.symbols (λ s. s.byte_range.start)
                (indices_from 0 (length self.symbols)) by_start ordered in
            sorted_locals (rw (ordered ∙ ap some (sym order)) at e)
      ]
  where
    none_built : ◌≡◌ {A = Option DocumentSymbols} none (some built) → Kept self built
    none_built h = cc

    ap_some :
        {B : Type 0} {d : DocumentSymbols} (f : DocumentSymbols → B)
        → some d ≡ some built
        → f built ≡ f d
    ap_some f h = ap (λ o. f (unwrap_or o built)) (sym h)

    of_record :
        (sorted : Assoc SymbolId (Assoc Text (List SymbolId)))
        → some (record (indexed self) { locals_in_function = sorted }) ≡ some built
        → Kept self built
    of_record sorted same = record {
      symbols = ap_some (λ d. d.symbols) same ∙ each-symbols self.symbols (ordered_by_start self);
      top_level = ap_some (λ d. d.top_level_by_name) same;
      types = ap_some (λ d. d.type_by_name) same;
      members = ap_some (λ d. d.members_by_container) same;
      by_start =
          ap_some (λ d. d.by_start_byte) same ∙ each-by_start self.symbols (ordered_by_start self);
    }

    sorted_locals :
        (index_locals self.symbols self.symbols (indexed self).locals_in_function >>= λ locals.
        each_value
          (each_value (checked_sort self.symbols (λ s. s.selection_byte_range.start)))
          locals
        >>= λ sorted. some (record (indexed self) { locals_in_function = sorted }))
          ≡ some built
        → Kept self built
    sorted_locals h =
        elim (Option-cases
          (index_locals self.symbols self.symbols (indexed self).locals_in_function)) [
            | inl out ↦ none_built (rw out at h)
            | inr (locals, found) ↦
                elim (Option-cases (
                  each_value
                    (each_value (checked_sort self.symbols (λ s. s.selection_byte_range.start)))
                    locals)) [
                      | inl out ↦ none_built (rw (found, out) at h)
                      | inr (sorted, order) ↦ of_record sorted (rw (found, order) at h)
                    ]
          ]
