-- ===== src/Base/Entries.antt =====
-- Hash maps from keys to lists, `entry(k).or_default().push(v)`, and the removal of values.
use mathlib.Core.Path.{◌≡◌, refl, sym, ap, ◌∙◌}
use mathlib.Core.Logic.{inl, inr}
use mathlib.Core.Bool.{Bool, true, false, ◌&&◌}
use mathlib.Core.List.{List, [], ◌∷◌, ◌++◌, append-nil}
use witcherscript_language.Base.Tests.{if◌then◌else◌, map_or, unwrap_or, Bool-cases, Option-cases}
use witcherscript_language.Base.Lists.{filter, is_empty}
use witcherscript_language.Base.Dict.{KeyEq, Assoc, get, put, without, get-put, get-without}

module _ {K V : Type 0} (key : KeyEq K) where
  -- the values under a key
  abbrev pub entry : K → Assoc K (List V) → List V
  entry k m = unwrap_or (get key k m) []

  unfoldable pub push_value : K → V → Assoc K (List V) → Assoc K (List V)
  unfolding get put
  push_value k v m = put key k (entry k m ++ v ∷ []) m

  -- `retain` on the values under a key, which goes when none is left
  unfoldable pub retain_and_prune : K → (V → Bool) → Assoc K (List V) → Assoc K (List V)
  unfolding get put without filter is_empty
  retain_and_prune k keep m = map_or (get key k m) m λ entries.
      let left = filter keep entries in if is_empty left then without key k m else put key k left m

  pub entry-push_value :
      (k j : K) (v : V) (m : Assoc K (List V))
      → entry j (push_value k v m) ≡ entry j m ++ (if key.eqb k j then v ∷ [] else [])
  unfolding push_value
  entry-push_value k j v m = elim (Bool-cases (key.eqb k j)) [
    | inl e ↦
        rw (get-put key k j (entry k m ++ v ∷ []) m, e)
          (ap (λ i. entry i m ++ v ∷ []) ((key.eqb_iff k j).0 e))
    | inr e ↦ rw (get-put key k j (entry k m ++ v ∷ []) m, e) (sym (append-nil (entry j m)))
  ]

  empty_lem : (l : List V) → is_empty l ≡ true → l ≡ []
  unfolding is_empty
  empty_lem [] e = refl
  empty_lem (x ∷ l) e = cc

  entry_same : (k j : K) (m : Assoc K (List V)) → key.eqb k j ≡ true → get key j m ≡ get key k m
  entry_same k j m e = ap (λ i. get key i m) (sym ((key.eqb_iff k j).0 e))

  pub entry-retain_and_prune :
      (k j : K) (keep : V → Bool) (m : Assoc K (List V))
      → entry j (retain_and_prune k keep m)
        ≡ (if key.eqb k j then filter keep (entry j m) else entry j m)
  unfolding retain_and_prune
  entry-retain_and_prune k j keep m = elim (Bool-cases (key.eqb k j)) [
    | inl e ↦ elim (Option-cases (get key k m)) [
      | inl out ↦ rw (out, e, entry_same k j m e, out) (unfold filter in refl)
      | inr (l, found) ↦ elim (Bool-cases (is_empty (filter keep l))) [
        | inl q ↦
            rw (found, q, get-without key k j m, e, entry_same k j m e, found)
              (sym (empty_lem (filter keep l) q))
        | inr q ↦
            rw (found, q, get-put key k j (filter keep l) m, e, entry_same k j m e, found) refl
      ]
    ]
    | inr e ↦ elim (Option-cases (get key k m)) [
      | inl out ↦ rw (out, e) refl
      | inr (l, found) ↦ elim (Bool-cases (is_empty (filter keep l))) [
        | inl q ↦ rw (found, q, get-without key k j m, e) refl
        | inr q ↦ rw (found, q, get-put key k j (filter keep l) m, e) refl
      ]
    ]
  ]

module _ {K L V : Type 0} (outer : KeyEq K) (inner : KeyEq L) where
  abbrev pub inner_map : K → Assoc K (Assoc L (List V)) → Assoc L (List V)
  inner_map k m = unwrap_or (get outer k m) []

  -- the values under two keys
  abbrev pub nested_entry : K → L → Assoc K (Assoc L (List V)) → List V
  nested_entry k l m = entry inner l (inner_map k m)

  unfoldable pub push_nested : K → L → V → Assoc K (Assoc L (List V)) → Assoc K (Assoc L (List V))
  unfolding push_value get put
  push_nested k l v m = put outer k (push_value inner l v (inner_map k m)) m

  unfoldable pub retain_and_prune_nested :
      K → L → (V → Bool) → Assoc K (Assoc L (List V)) → Assoc K (Assoc L (List V))
  unfolding get put without retain_and_prune is_empty
  retain_and_prune_nested k l keep m = map_or (get outer k m) m λ by_inner.
      let left = retain_and_prune inner l keep by_inner in
      if is_empty left then without outer k m else put outer k left m

  inner_same :
      (k j : K) (m : Assoc K (Assoc L (List V)))
      → outer.eqb k j ≡ true
      → inner_map k m ≡ inner_map j m
  inner_same k j m e = ap (λ i. inner_map i m) ((outer.eqb_iff k j).0 e)

  pub nested_entry-push_nested :
      (k j : K) (l i : L) (v : V) (m : Assoc K (Assoc L (List V)))
      → nested_entry j i (push_nested k l v m)
        ≡ nested_entry j i m ++ (if outer.eqb k j && inner.eqb l i then v ∷ [] else [])
  unfolding push_nested
  nested_entry-push_nested k j l i v m = elim (Bool-cases (outer.eqb k j)) [
    | inl e ↦
        rw (get-put outer k j (push_value inner l v (inner_map k m)) m, e, ← inner_same k j m e)
          (entry-push_value inner l i v (inner_map k m))
    | inr e ↦
        rw (get-put outer k j (push_value inner l v (inner_map k m)) m, e)
          (sym (append-nil (nested_entry j i m)))
  ]

  empty_entry : (i : L) (m : Assoc L (List V)) → is_empty m ≡ true → entry inner i m ≡ []
  unfolding is_empty get
  empty_entry i [] e = refl
  empty_entry i (x ∷ m) e = cc

  pub nested_entry-retain_and_prune_nested :
      (k j : K) (l i : L) (keep : V → Bool) (m : Assoc K (Assoc L (List V)))
      → nested_entry j i (retain_and_prune_nested k l keep m) ≡ (
          if outer.eqb k j && inner.eqb l i
          then filter keep (nested_entry j i m)
          else nested_entry j i m)
  unfolding retain_and_prune_nested
  nested_entry-retain_and_prune_nested k j l i keep m = elim (Bool-cases (outer.eqb k j)) [
    | inl e ↦ elim (Option-cases (get outer k m)) [
      | inl out ↦
          rw (out, e, entry_same outer k j m e, out)
            (unfold get in unfold filter in nil_either (inner.eqb l i))
      | inr (n, found) ↦ elim (Bool-cases (is_empty (retain_and_prune inner l keep n))) [
        | inl q ↦
            rw (found, q, get-without outer k j m, e, entry_same outer k j m e, found)
              (sym (empty_entry i (retain_and_prune inner l keep n) q)
                ∙ entry-retain_and_prune inner l i keep n)
        | inr q ↦
            rw
              (
                found,
                q,
                get-put outer k j (retain_and_prune inner l keep n) m,
                e,
                entry_same outer k j m e,
                found,
              )
              (entry-retain_and_prune inner l i keep n)
      ]
    ]
    | inr e ↦ elim (Option-cases (get outer k m)) [
      | inl out ↦ rw (out, e) refl
      | inr (n, found) ↦ elim (Bool-cases (is_empty (retain_and_prune inner l keep n))) [
        | inl q ↦ rw (found, q, get-without outer k j m, e) refl
        | inr q ↦ rw (found, q, get-put outer k j (retain_and_prune inner l keep n) m, e) refl
      ]
    ]
  ]
    where
      nil_either : (b : Bool) → ◌≡◌ {A = List V} [] (if b then [] else [])
      nil_either true = refl
      nil_either false = refl
