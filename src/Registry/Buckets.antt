-- ===== src/Registry/Buckets.antt =====
-- One of the three hash maps of the registry: the subscribers of each key.
use witcherscript_language.Base.{
  ◌≡◌, refl, ap, Bool, true, false, not, ◌&&◌, ◌||◌, none, some, List, [], ◌∷◌, Text, text_eq,
  if◌then◌else◌, unwrap_or, arith, Option-cases, inl, inr, KeyEq, text_key, Assoc, contains,
  set_insert, set_remove, get, put, without, get-put, get-without, contains-set_insert,
  contains-set_remove, is_empty,
}

module _ {K : Type 0} (key : KeyEq K) where
  unfoldable pub bucket_insert : Assoc K (List Text) → K → Text → Assoc K (List Text)
  unfolding get put set_insert
  bucket_insert bucket k uri =
      put key k (set_insert text_key uri (unwrap_or (get key k bucket) [])) bucket

  unfoldable pub bucket_remove : Assoc K (List Text) → K → Text → Assoc K (List Text)
  unfolding get put without set_remove
  bucket_remove bucket k uri = elim (get key k bucket) [
    | none ↦ bucket
    | some set ↦
        let left = set_remove text_key uri set in
        if is_empty left then without key k bucket else put key k left bucket
  ]

  -- the loops of `register` and `unregister` over a set of keys
  unfoldable pub insert_all : Assoc K (List Text) → List K → Text → Assoc K (List Text)
  unfolding bucket_insert
  insert_all bucket [] uri = bucket
  insert_all bucket (k ∷ ks) uri = insert_all (bucket_insert bucket k uri) ks uri

  unfoldable pub remove_all : Assoc K (List Text) → List K → Text → Assoc K (List Text)
  unfolding bucket_remove
  remove_all bucket [] uri = bucket
  remove_all bucket (k ∷ ks) uri = remove_all (bucket_remove bucket k uri) ks uri

  -- the subscriber stands in the key's set
  unfoldable pub has : Assoc K (List Text) → K → Text → Bool
  unfolding get contains
  has bucket k uri = contains text_key uri (unwrap_or (get key k bucket) [])

  has-put :
      (bucket : Assoc K (List Text)) (k j : K) (set : List Text) (v : Text)
      → has (put key k set bucket) j v
        ≡ (if key.eqb k j then contains text_key v set else has bucket j v)
  unfolding has
  has-put bucket k j set v = ground (arith, get-put key k j set bucket)

  has-without :
      (bucket : Assoc K (List Text)) (k j : K) (v : Text)
      → has (without key k bucket) j v ≡ (if key.eqb k j then false else has bucket j v)
  unfolding has contains
  has-without bucket k j v = ground (arith, get-without key k j bucket)

  has_same :
      (bucket : Assoc K (List Text)) (k j : K) (v : Text)
      → key.eqb k j ≡ true
      → has bucket k v ≡ has bucket j v
  has_same bucket k j v e = ap (λ i. has bucket i v) ((key.eqb_iff k j).0 e)

  pub has-bucket_insert :
      (bucket : Assoc K (List Text)) (k j : K) (u v : Text)
      → has (bucket_insert bucket k u) j v ≡ (key.eqb k j && text_eq u v || has bucket j v)
  unfolding bucket_insert
  has-bucket_insert bucket k j u v =
      let set = unwrap_or (get key k bucket) [] in
      let found : has bucket k v ≡ contains text_key v set = unfold has in refl in
      ground (
        arith,
        has-put bucket k j (set_insert text_key u set) v,
        contains-set_insert text_key u v set,
        has_same bucket k j v,
        found,
      )

  empty_lem : (s : List Text) (v : Text) → is_empty s ≡ true → contains text_key v s ≡ false
  unfolding contains is_empty
  empty_lem [] v e = refl
  empty_lem (x ∷ s) v e = cc

  bucket_remove-none :
      (bucket : Assoc K (List Text)) (k : K) (u : Text)
      → get key k bucket ≡ none
      → bucket_remove bucket k u ≡ bucket
  unfolding bucket_remove
  bucket_remove-none bucket k u e = rw (e, bucket_remove)

  bucket_remove-some :
      (bucket : Assoc K (List Text)) (k : K) (u : Text) (set : List Text)
      → get key k bucket ≡ some set
      → bucket_remove bucket k u ≡ (
          if is_empty (set_remove text_key u set)
          then without key k bucket
          else put key k (set_remove text_key u set) bucket)
  unfolding bucket_remove
  bucket_remove-some bucket k u set e = rw (e, bucket_remove)

  pub has-bucket_remove :
      (bucket : Assoc K (List Text)) (k j : K) (u v : Text)
      → has (bucket_remove bucket k u) j v ≡ (has bucket j v && not (key.eqb k j && text_eq u v))
  has-bucket_remove bucket k j u v = elim (Option-cases (get key k bucket)) [
    | inl out ↦
        let none_there : has bucket k v ≡ false = unfold has contains in rw out refl in
        rw (bucket_remove-none bucket k u out) (ground (arith, has_same bucket k j v))
    | inr (set, found) ↦
        let there : has bucket k v ≡ contains text_key v set = unfold has in rw found refl in
        let left = set_remove text_key u set in
        rw (bucket_remove-some bucket k u set found) (
          ground (
            arith,
            has_same bucket k j v,
            has-put bucket k j left v,
            has-without bucket k j v,
            contains-set_remove text_key u v set,
            empty_lem left v,
          ))
  ]

  pub has-insert_all :
      (bucket : Assoc K (List Text)) (ks : List K) (j : K) (u v : Text)
      → has (insert_all bucket ks u) j v ≡ (contains key j ks && text_eq u v || has bucket j v)
  unfolding insert_all contains
  has-insert_all bucket [] j u v = refl
  has-insert_all bucket (k ∷ ks) j u v =
      ground (
        arith,
        has-insert_all (bucket_insert bucket k u) ks j u v,
        has-bucket_insert bucket k j u v,
      )

  pub has-remove_all :
      (bucket : Assoc K (List Text)) (ks : List K) (j : K) (u v : Text)
      → has (remove_all bucket ks u) j v
        ≡ (has bucket j v && not (contains key j ks && text_eq u v))
  unfolding remove_all contains
  has-remove_all bucket [] j u v = ground arith
  has-remove_all bucket (k ∷ ks) j u v =
      ground (
        arith,
        has-remove_all (bucket_remove bucket k u) ks j u v,
        has-bucket_remove bucket k j u v,
      )
