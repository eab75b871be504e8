-- ===== src/Workspace/Channel.antt =====
-- What the maps of the index have in common: the removal of a document's symbols filters what they
-- name, and the insertion appends a value for each (src/resolve/workspace_index/indices.rs).
pub mod TopLevel
pub mod Natives
pub mod Members
pub mod States
pub mod Annotated
use witcherscript_language.Base.{
  ℕ, ◌≡◌, refl, sym, ap, ◌∙◌, Bool, true, false, not, ◌||◌, Option, none, some, List, [], ◌∷◌, ◌++◌,
  append-nil, append_assoc, map, Text, text_eq, text_eq_iff, text_key, Assoc, get, put, without,
  get-put, get-without, unwrap_or, map_or, filter, filter-append, filter_weaker, filter_contrary,
  filter-not, filter-map_true, filter-map_false, subst, any, All, Bool-cases, Option-cases, inl,
  inr, if◌then◌else◌, arith,
}
use witcherscript_language.Symbols.Symbol.{Symbol}
use witcherscript_language.Workspace.Defs.{WorkspaceIndex, DocContribution}
use witcherscript_language.Workspace.Index.{
  define, remove_symbol, remove_each, remove_from_indices, insert_symbol, insert_into_indices,
  remove_native, remove_member, remove_extension, remove_state, remove_annotated, insert_native,
  insert_member, insert_extension, insert_state,
}
use witcherscript_language.Workspace.Steps.{rest, rest-remove_symbol, rest-insert_symbol}
use witcherscript_language.Workspace.Update.{contributed, withdrawn}

-- the maps of the first index with the rest of the second
abbrev pub maps_with : WorkspaceIndex → WorkspaceIndex → WorkspaceIndex
maps_with a b = record a {
  documents = b.documents;
  doc_idents = b.doc_idents;
  doc_surface_hashes = b.doc_surface_hashes;
  surface_hash = b.surface_hash;
  generation = b.generation;
  doc_outward_hashes = b.doc_outward_hashes;
  completion_catalog = b.completion_catalog;
  completion_catalog_dirty = b.completion_catalog_dirty;
  catalog_rebuild_suppressed = b.catalog_rebuild_suppressed;
}

pub record Channel (J V : Type 0) : Type 0 where
  pub values : WorkspaceIndex → J → List V
  pub owner : V → Text
  pub value : Text → Symbol → V
  -- the symbols whose value is inserted under the index, those whose removal filters it, and those
  -- of which the first are among the second
  pub holds : Symbol → J → Bool
  pub hits : Symbol → J → Bool
  pub removable : Symbol → Bool
  pub owner-value : (uri : Text) (s : Symbol) → owner (value uri s) ≡ uri
  pub holds-hits : (s : Symbol) (j : J) → removable s ≡ true → hits s j ≡ false → holds s j ≡ false
  pub values-maps_with : (a b : WorkspaceIndex) (j : J) → values (maps_with a b) j ≡ values a j
  pub values-remove_symbol :
      (uri : Text) (s : Symbol) (self : WorkspaceIndex) (j : J)
      → values (remove_symbol uri s self) j ≡ (
          if hits s j
          then filter (λ v. not (text_eq (owner v) uri)) (values self j)
          else values self j)
  pub values-insert_symbol :
      (uri : Text) (s : Symbol) (self : WorkspaceIndex) (j : J)
      → values (insert_symbol uri s self) j
        ≡ values self j ++ (if holds s j then value uri s ∷ [] else [])

abbrev pub documents_of : WorkspaceIndex → Text → List Symbol
documents_of self uri = unwrap_or (get text_key uri self.documents) []

pub uri-define : (uri : Text) (s : Symbol) → (define uri s).uri ≡ uri
unfolding define
uri-define uri s = refl

pub rest-remove_each :
    (uri : Text) (ss : List Symbol) (self : WorkspaceIndex)
    → rest (remove_each uri ss self) ≡ rest self
unfolding remove_each
rest-remove_each uri [] self = refl
rest-remove_each uri (s ∷ ss) self =
    rest-remove_each uri ss (remove_symbol uri s self) ∙ rest-remove_symbol uri s self

pub rest-insert_into_indices :
    (uri : Text) (ss : List Symbol) (self : WorkspaceIndex)
    → rest (insert_into_indices uri ss self) ≡ rest self
unfolding insert_into_indices
rest-insert_into_indices uri [] self = refl
rest-insert_into_indices uri (s ∷ ss) self =
    rest-insert_into_indices uri ss (insert_symbol uri s self) ∙ rest-insert_symbol uri s self

pub rest-remove_from_indices :
    (uri : Text) (self : WorkspaceIndex) → rest (remove_from_indices uri self) ≡ rest self
unfolding remove_from_indices
rest-remove_from_indices uri self = elim (Option-cases (get text_key uri self.documents)) [
  | inl out ↦ rw out refl
  | inr (l, found) ↦ rw found (rest-remove_each uri l self)
]

module _ {J V : Type 0} (channel : Channel J V) where
  abbrev pub own : Text → V → Bool
  own uri v = text_eq (channel.owner v) uri

  abbrev pub other : Text → V → Bool
  other uri v = not (text_eq (channel.owner v) uri)

  -- the values of a document's symbols under an index
  abbrev pub values_in : Text → List Symbol → J → List V
  values_in uri ss j =
      map {A = Symbol} {B = V} (channel.value uri) (filter (λ s. channel.holds s j) ss)

  -- each document's values under an index are those of its symbols, in their order
  abbrev pub Tracks : WorkspaceIndex → Type 0
  Tracks self =
      (uri : Text) (j : J)
      → filter (own uri) (channel.values self j) ≡ values_in uri (documents_of self uri) j

  -- the symbols of the document are removed as they were inserted
  abbrev pub Removable : WorkspaceIndex → Text → Type 0
  Removable self uri = All (λ s. channel.removable s ≡ true) (documents_of self uri)

  values-remove_each :
      (uri : Text) (ss : List Symbol) (self : WorkspaceIndex) (j : J)
      → channel.values (remove_each uri ss self) j ≡ (
          if any (λ s. channel.hits s j) ss
          then filter (other uri) (channel.values self j)
          else channel.values self j)
  unfolding remove_each any
  values-remove_each uri [] self j = refl
  values-remove_each uri (s ∷ ss) self j = elim (Bool-cases (channel.hits s j)) [
    | inl q ↦ rw q (
        values-remove_each uri ss (remove_symbol uri s self) j
        ∙ ap (λ l. if any (λ s. channel.hits s j) ss then filter (other uri) l else l)
            (channel.values-remove_symbol uri s self j ∙ rw q refl)
        ∙ again (any (λ s. channel.hits s j) ss) uri (channel.values self j))
    | inr q ↦ rw q (
        values-remove_each uri ss (remove_symbol uri s self) j
        ∙ ap (λ l. if any (λ s. channel.hits s j) ss then filter (other uri) l else l)
            (channel.values-remove_symbol uri s self j ∙ rw q refl))
  ]
    where
      again :
          (b : Bool) (uri : Text) (l : List V)
          → (if b then filter (other uri) (filter (other uri) l) else filter (other uri) l)
            ≡ filter (other uri) l
      again true uri l = filter_weaker (other uri) (other uri) (λ v e. e) l
      again false uri l = refl

  pub values-insert_into_indices :
      (uri : Text) (ss : List Symbol) (self : WorkspaceIndex) (j : J)
      → channel.values (insert_into_indices uri ss self) j
        ≡ channel.values self j ++ values_in uri ss j
  unfolding insert_into_indices filter
  values-insert_into_indices uri [] self j = sym (append-nil (channel.values self j))
  values-insert_into_indices uri (s ∷ ss) self j = elim (Bool-cases (channel.holds s j)) [
    | inl q ↦ rw q (
        values-insert_into_indices uri ss (insert_symbol uri s self) j
        ∙ ap (λ l. l ++ values_in uri ss j) (channel.values-insert_symbol uri s self j ∙ rw q refl)
        ∙ append_assoc (channel.values self j) (channel.value uri s ∷ []) (values_in uri ss j))
    | inr q ↦ rw q (
        values-insert_into_indices uri ss (insert_symbol uri s self) j
        ∙ ap (λ l. l ++ values_in uri ss j)
            (channel.values-insert_symbol uri s self j ∙ rw q (append-nil (channel.values self j))))
  ]

  holds_none :
      (ss : List Symbol) (j : J)
      → All (λ s. channel.removable s ≡ true) ss
      → any (λ s. channel.hits s j) ss ≡ false
      → filter (λ s. channel.holds s j) ss ≡ []
  unfolding any filter
  holds_none [] j r e = refl
  holds_none (s ∷ ss) j (r, rs) e = elim (Bool-cases (channel.hits s j)) [
    | inl q ↦ absurd (true_false (rw q at e))
    | inr q ↦ rw (channel.holds-hits s j r q) (holds_none ss j rs (rw q at e))
  ]
    where
      true_false : ◌≡◌ {A = Bool} true false → ⊥
      true_false h = cc

  removed_or :
      (b : Bool) (uri : Text) (l : List V)
      → (b ≡ false → filter (own uri) l ≡ [])
      → (if b then filter (other uri) l else l) ≡ filter (other uri) l
  removed_or true uri l h = refl
  removed_or false uri l h = sym (filter-not (own uri) l (h refl))

  -- the removal of a document leaves the others' values
  pub values-remove_from_indices :
      (uri : Text) (self : WorkspaceIndex) (j : J)
      → Tracks self
      → Removable self uri
      → channel.values (remove_from_indices uri self) j ≡ filter (other uri) (channel.values self j)
  unfolding remove_from_indices
  values-remove_from_indices uri self j t r =
      elim (Option-cases (get text_key uri self.documents)) [
        | inl out ↦ rw out (
            sym (
              filter-not (own uri) (channel.values self j) (
                t uri j
                ∙ ap (λ o. values_in uri (unwrap_or o []) j) out
                ∙ (unfold filter in refl))))
        | inr (l, found) ↦
            let documents : documents_of self uri ≡ l = ap (λ o. unwrap_or o []) found in
            rw found (
              values-remove_each uri l self j
              ∙ removed_or (any (λ s. channel.hits s j) l) uri (channel.values self j) (λ e.
                t uri j
                ∙ ap (λ l. values_in uri l j) documents
                ∙ ap (map (channel.value uri))
                    (holds_none l j (subst (All (λ s. channel.removable s ≡ true)) documents r) e)))
      ]
