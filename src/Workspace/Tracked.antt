-- ===== src/Workspace/Tracked.antt =====
-- What the updates of a document do to the maps of the index (src/resolve/workspace_index/).
use witcherscript_language.Base.{
  ◌≡◌, refl, sym, ap, ◌∙◌, true, false, List, [], ◌++◌, append-nil, Text, text_eq, text_eq_iff,
  text_eq→eq, text_key, get, put, without, get-put, get-without, unwrap_or, filter, filter-append,
  filter_weaker, filter_contrary, filter-map_true, filter-map_false, Bool-cases, inl, inr,
  if◌then◌else◌, arith, ◌==◌,
}
use witcherscript_language.Registry.Defs.{ObservedKey}
use witcherscript_language.Symbols.Symbol.{Symbol}
use witcherscript_language.Workspace.Defs.{WorkspaceIndex, DocContribution, global_catalog_changed}
use witcherscript_language.Workspace.Index.{remove_from_indices, insert_into_indices}
use witcherscript_language.Workspace.Update.{
  contributed, withdrawn, follow_keys, apply_contribution, remove_document, changed_by,
  maybe_rebuild_completion_catalog, rebuild_completion_catalog,
}
use witcherscript_language.Workspace.Channel.{
  Channel, documents_of, own, other, values_in, Tracks, Removable, values-remove_from_indices,
  values-insert_into_indices, rest-remove_from_indices, rest-insert_into_indices,
}

documents-put :
    (uri at : Text) (ss : List Symbol) (m : List (Text × List Symbol))
    → unwrap_or (get text_key at (put text_key uri ss m)) []
      ≡ (if text_eq uri at then ss else unwrap_or (get text_key at m) [])
documents-put uri at ss m = elim (Bool-cases (text_eq uri at)) [
  | inl e ↦ rw (get-put text_key uri at ss m, e) refl
  | inr e ↦ rw (get-put text_key uri at ss m, e) refl
]

documents-without :
    (uri at : Text) (m : List (Text × List Symbol))
    → unwrap_or (get text_key at (without text_key uri m)) []
      ≡ (if text_eq uri at then [] else unwrap_or (get text_key at m) [])
documents-without uri at m = elim (Bool-cases (text_eq uri at)) [
  | inl e ↦ rw (get-without text_key uri at m, e) refl
  | inr e ↦ rw (get-without text_key uri at m, e) refl
]

pub documents-contributed :
    (uri at : Text) (c : DocContribution) (self : WorkspaceIndex)
    → documents_of (contributed uri c self) at
      ≡ (if text_eq uri at then c.symbols else documents_of self at)
unfolding contributed
documents-contributed uri at c self =
    let removed : WorkspaceIndex = remove_from_indices uri self in
    documents-put uri at c.symbols
      (insert_into_indices uri c.symbols
        (record removed { doc_idents = without text_key uri removed.doc_idents })).documents
    ∙ ap (λ i. if text_eq uri at then c.symbols else documents_of i at)
        (rest-insert_into_indices uri c.symbols
          (record removed { doc_idents = without text_key uri removed.doc_idents }))
    ∙ ap (λ i. if text_eq uri at then c.symbols else documents_of i at)
        (rest-remove_from_indices uri self)

pub documents-withdrawn :
    (uri at : Text) (self : WorkspaceIndex)
    → documents_of (withdrawn uri self) at ≡ (if text_eq uri at then [] else documents_of self at)
unfolding withdrawn
documents-withdrawn uri at self =
    documents-without uri at (remove_from_indices uri self).documents
    ∙ ap (λ i. if text_eq uri at then [] else documents_of i at) (rest-remove_from_indices uri self)

-- the catalog follows without a change of the maps or of the documents
pub follow_keys-cases :
    (P : WorkspaceIndex → Type 0) (keys : List ObservedKey) (self : WorkspaceIndex)
    → P self
    → P (record self { completion_catalog_dirty = true })
    → P (rebuild_completion_catalog (record self { completion_catalog_dirty = true }))
    → P (follow_keys keys self)
unfolding follow_keys maybe_rebuild_completion_catalog
follow_keys-cases P keys self a b c = elim (Bool-cases (global_catalog_changed keys)) [
  | inl q ↦ elim (Bool-cases (self.catalog_rebuild_suppressed == 0)) [
    | inl r ↦ rw (q, r) c
    | inr r ↦ rw (q, r) b
  ]
  | inr q ↦ rw q a
]

pub documents-follow_keys :
    (keys : List ObservedKey) (self : WorkspaceIndex) (uri : Text)
    → documents_of (follow_keys keys self) uri ≡ documents_of self uri
unfolding rebuild_completion_catalog
documents-follow_keys keys self uri =
    follow_keys-cases (λ i. documents_of i uri ≡ documents_of self uri) keys self refl refl refl

module _ {J V : Type 0} (channel : Channel J V) where
  values-contributed :
      (uri : Text) (c : DocContribution) (self : WorkspaceIndex) (j : J)
      → Tracks channel self
      → Removable channel self uri
      → channel.values (contributed uri c self) j
        ≡ filter (other channel uri) (channel.values self j) ++ values_in channel uri c.symbols j
  unfolding contributed
  values-contributed uri c self j t r =
      let removed : WorkspaceIndex = remove_from_indices uri self in
      let forgotten : WorkspaceIndex = record removed {
        doc_idents = without text_key uri removed.doc_idents;
      } in
      let done : WorkspaceIndex = contributed uri c self in
      channel.values-maps_with (insert_into_indices uri c.symbols forgotten) done j
      ∙ values-insert_into_indices channel uri c.symbols forgotten j
      ∙ ap (λ l. l ++ values_in channel uri c.symbols j)
          (channel.values-maps_with removed forgotten j
            ∙ values-remove_from_indices channel uri self j t r)

  values-withdrawn :
      (uri : Text) (self : WorkspaceIndex) (j : J)
      → Tracks channel self
      → Removable channel self uri
      → channel.values (withdrawn uri self) j ≡ filter (other channel uri) (channel.values self j)
  unfolding withdrawn
  values-withdrawn uri self j t r =
      channel.values-maps_with (remove_from_indices uri self) (withdrawn uri self) j
      ∙ values-remove_from_indices channel uri self j t r

  values-follow_keys :
      (keys : List ObservedKey) (self : WorkspaceIndex) (j : J)
      → channel.values (follow_keys keys self) j ≡ channel.values self j
  unfolding rebuild_completion_catalog
  values-follow_keys keys self j =
      follow_keys-cases (λ i. channel.values i j ≡ channel.values self j) keys self refl
        (channel.values-maps_with self (record self { completion_catalog_dirty = true }) j)
        (channel.values-maps_with self
          (rebuild_completion_catalog (record self { completion_catalog_dirty = true })) j)

  -- If a map of the index is in step, and the symbols that the document had before are removable for
  -- that map (for the map of annotated members, none of them has both a container and an annotation
  -- that adds it to a class; for the other maps, any symbols are), then an update leaves, under each
  -- key of the map, the values of the other documents, and appends those of the contribution's symbols
  -- in their order.
  pub values-apply_contribution :
      (uri : Text) (c : DocContribution) (self : WorkspaceIndex) (j : J)
      → Tracks channel self
      → Removable channel self uri
      → channel.values (apply_contribution uri c self).0 j
        ≡ filter (other channel uri) (channel.values self j) ++ values_in channel uri c.symbols j
  unfolding apply_contribution
  values-apply_contribution uri c self j t r =
      values-follow_keys (changed_by uri c (remove_from_indices uri self)) (contributed uri c self)
        j
      ∙ values-contributed uri c self j t r

  pub values-remove_document :
      (uri : Text) (self : WorkspaceIndex) (j : J)
      → Tracks channel self
      → Removable channel self uri
      → channel.values (remove_document uri self).0 j
        ≡ filter (other channel uri) (channel.values self j)
  unfolding remove_document
  values-remove_document uri self j t r =
      values-follow_keys (remove_document uri self).1 (withdrawn uri self) j
      ∙ values-withdrawn uri self j t r

  own-other :
      (uri at : Text) (v : V)
      → text_eq uri at ≡ false
      → own channel at v ≡ true
      → other channel uri v ≡ true
  own-other uri at v ne e = ground (
    arith,
    text_eq_iff (channel.owner v) at,
    text_eq_iff (channel.owner v) uri,
    text_eq_iff uri at,
  )

  not_own : (uri : Text) (v : V) → other channel uri v ≡ true → own channel uri v ≡ false
  not_own uri v e = ground arith

  own-values_in :
      (uri at : Text) (ss : List Symbol) (j : J)
      → filter (own channel at) (values_in channel uri ss j)
        ≡ (if text_eq uri at then values_in channel uri ss j else [])
  own-values_in uri at ss j = elim (Bool-cases (text_eq uri at)) [
    | inl e ↦ rw e (
        filter-map_true (own channel at) (channel.value uri)
          (λ s. ap (λ u. text_eq u at) (channel.owner-value uri s) ∙ e)
          (filter (λ s. channel.holds s j) ss))
    | inr e ↦ rw e (
        filter-map_false (own channel at) (channel.value uri)
          (λ s. ap (λ u. text_eq u at) (channel.owner-value uri s) ∙ e)
          (filter (λ s. channel.holds s j) ss))
  ]

  -- a document replaced in a list of values
  replaced :
      (uri at : Text) (ss : List Symbol) (l : List V) (docs : List Symbol) (j : J)
      → filter (own channel at) l ≡ values_in channel at docs j
      → filter (own channel at) (filter (other channel uri) l ++ values_in channel uri ss j)
        ≡ values_in channel at (if text_eq uri at then ss else docs) j
  replaced uri at ss l docs j t =
      filter-append (own channel at) (filter (other channel uri) l) (values_in channel uri ss j)
      ∙ ap (λ v. filter (own channel at) (filter (other channel uri) l) ++ v)
          (own-values_in uri at ss j)
      ∙ elim (Bool-cases (text_eq uri at)) [
        | inl e ↦
            let same : uri ≡ at = text_eq→eq uri at e in
            rw (e, ← same, filter_contrary (own channel uri) (other channel uri) (not_own uri) l)
              refl
        | inr e ↦
            rw (e, filter_weaker (own channel at) (other channel uri) (λ v. own-other uri at v e) l)
              (append-nil (filter (own channel at) l) ∙ t)
      ]

  -- The update keeps each index in step with the documents: under it, each document's values are
  -- those of the document's symbols, in their order.
  pub apply_contribution-Tracks :
      (uri : Text) (c : DocContribution) (self : WorkspaceIndex)
      → Tracks channel self
      → Removable channel self uri
      → Tracks channel (apply_contribution uri c self).0
  unfolding apply_contribution
  apply_contribution-Tracks uri c self t r at j =
      ap (filter (own channel at)) (values-apply_contribution uri c self j t r)
      ∙ replaced uri at c.symbols (channel.values self j) (documents_of self at) j (t at j)
      ∙ ap (λ ss. values_in channel at ss j)
          (sym (
            documents-follow_keys (changed_by uri c (remove_from_indices uri self))
              (contributed uri c self) at
            ∙ documents-contributed uri at c self))

  -- The removal of a document keeps each index in step with the documents.
  pub remove_document-Tracks :
      (uri : Text) (self : WorkspaceIndex)
      → Tracks channel self
      → Removable channel self uri
      → Tracks channel (remove_document uri self).0
  unfolding remove_document
  remove_document-Tracks uri self t r at j =
      ap (filter (own channel at)) (
        values-remove_document uri self j t r
        ∙ sym (append-nil (filter (other channel uri) (channel.values self j))))
      ∙ replaced uri at [] (channel.values self j) (documents_of self at) j (t at j)
      ∙ ap (λ ss. values_in channel at ss j)
          (sym (
            documents-follow_keys (remove_document uri self).1 (withdrawn uri self) at
            ∙ documents-withdrawn uri at self))
