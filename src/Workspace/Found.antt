-- ===== src/Workspace/Found.antt =====
-- What the lookups return, against the documents (src/resolve/workspace_index/lookup.rs).
use witcherscript_language.Base.{
  ◌≡◌, sym, ap, ◌∙◌, subst, true, not, Option, none, some, List, [], ◌∷◌, Text, text_eq_refl,
  text_key, get, or_else, is_empty, unwrap_or, filter, find, entry, Among, find-Among, filter-Among,
  Among-filter, Among-map, Option-cases, inl, inr,
}
use witcherscript_language.Symbols.Kinds.{state, kind_eq}
use witcherscript_language.Symbols.Symbol.{Symbol}
use witcherscript_language.Workspace.Defs.{Definition, WorkspaceIndex, last}
use witcherscript_language.Workspace.Channel.{Channel, Tracks, documents_of, own}
use witcherscript_language.Workspace.Channel.TopLevel.{top_level_channel, superclasses_channel}
use witcherscript_language.Workspace.Maps.{IsTracked}
use witcherscript_language.Workspace.Lookup.{find_top_level, superclass_of, first}

pub last-Among : (A : Type 0) (xs : List A) (a : A) → last xs ≡ some a → Among a xs
unfolding last is_empty
last-Among A [] a e = absurd (none_some e)
  where
    none_some : ◌≡◌ {A = Option A} none (some a) → ⊥
    none_some h = cc
last-Among A (x ∷ []) a e = inl (of_some e)
  where
    of_some : some x ≡ some a → x ≡ a
    of_some h = cc
last-Among A (x ∷ (y ∷ ys)) a e = inr (last-Among A (y ∷ ys) a e)

first-Among : (xs : List Definition) (a : Definition) → first xs ≡ some a → Among a xs
first-Among [] a e = absurd (none_some e)
  where
    none_some : ◌≡◌ {A = Option Definition} none (some a) → ⊥
    none_some h = cc
first-Among (x ∷ xs) a e = inl (of_some e)
  where
    of_some : some x ≡ some a → x ≡ a
    of_some h = cc

-- a symbol of the document that the value names
pub record Declared {J V : Type 0} (channel : Channel J V) (self : WorkspaceIndex) (j : J) (v : V)
    : Type 0 where
  pub symbol : Symbol
  pub in_document : Among symbol (documents_of self (channel.owner v))
  pub held : channel.holds symbol j ≡ true
  pub is_value : channel.value (channel.owner v) symbol ≡ v

-- a value under an index is that of a symbol of its document
pub values-Declared :
    {J V : Type 0} (channel : Channel J V) (self : WorkspaceIndex) (j : J) (v : V)
    → Tracks channel self
    → Among v (channel.values self j)
    → Declared channel self j v
values-Declared channel self j v t h =
    let uri = channel.owner v in
    let held =
      subst (Among v) (t uri j)
        (filter-Among (own channel uri) (channel.values self j) v (text_eq_refl uri) h) in
    let (s, m, e) =
      Among-map (channel.value uri) (filter (λ s. channel.holds s j) (documents_of self uri)) v
        held in
    let (d, k) = Among-filter (λ s. channel.holds s j) (documents_of self uri) s m in
    record { symbol = s; in_document = d; held = k; is_value = e }

-- the values under a key
entry_of :
    {V : Type 0} (n : Text) (m : List (Text × List V)) (l : List V)
    → get text_key n m ≡ some l
    → entry text_key n m ≡ l
entry_of n m l e = ap (λ o. unwrap_or o []) e

either-Among :
    (l : List Definition) (d : Definition)
    → or_else (find (λ d. not (kind_eq d.symbol.kind state)) l) (first l) ≡ some d
    → Among d l
either-Among l d e = elim (Option-cases (find (λ d. not (kind_eq d.symbol.kind state)) l)) [
  | inl out ↦ first-Among l d (rw out at e)
  | inr (a, found) ↦
      (find-Among (λ d. not (kind_eq d.symbol.kind state)) l d (found ∙ (rw found at e))).0
]

-- In an index whose maps are in step with the documents, find_top_level returns the definition of a
-- top-level symbol of that type name, as its document has it.
pub find_top_level-Declared :
    (self : WorkspaceIndex) (n : Text) (d : Definition)
    → IsTracked self
    → find_top_level self n ≡ some d
    → Declared top_level_channel self n d
unfolding find_top_level
find_top_level-Declared self n d t e = elim (Option-cases (get text_key n self.top_level_by_name)) [
  | inl out ↦ absurd (none_some (rw out at e))
  | inr (l, found) ↦ values-Declared top_level_channel self n d t.top_level (
      subst (Among d) (sym (entry_of n self.top_level_by_name l found))
        (either-Among l d (rw found at e)))
]
  where
    none_some : ◌≡◌ {A = Option Definition} none (some d) → ⊥
    none_some h = cc

-- superclass_of returns the base of a class of that name, as some document has it
pub superclass_of-Declared :
    (self : WorkspaceIndex) (n base : Text)
    → IsTracked self
    → superclass_of self n ≡ some base
    → (p : Text × Text) × (p.1 ≡ base) × Declared superclasses_channel self n p
unfolding superclass_of
superclass_of-Declared self n base t e =
    elim (Option-cases (get text_key n self.superclass_by_name)) [
      | inl out ↦ absurd (none_some (rw out at e))
      | inr (l, found) ↦ elim (Option-cases (last l)) [
        | inl out ↦ absurd (none_some (rw (found, out) at e))
        | inr (p, at_end) ↦ (
          p,
          of_some (rw (found, at_end) at e),
          values-Declared superclasses_channel self n p t.superclasses (
              subst (Among p) (sym (entry_of n self.superclass_by_name l found))
                (last-Among (Text × Text) l p at_end)),
        )
      ]
    ]
  where
    none_some : ◌≡◌ {A = Option Text} none (some base) → ⊥
    none_some h = cc

    of_some : {x : Text} → some x ≡ some base → x ≡ base
    of_some h = cc
