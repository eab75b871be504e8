-- ===== src/Symbols/Sorting.antt =====
-- The sort keys of `build_indexes` on ids that are in range (src/symbols/types.rs).
use witcherscript_language.Base.{
  insert_by, sort_by_key, ℕ, zero, suc, ◌+◌, ◌<◌, ◌≤◌, ◌≡◌, refl, ap, true, leb, Option, some,
  unwrap_or, subst, List, [], ◌∷◌, ◌++◌, Text, text_key, nat_key, KeyEq, Assoc, All, get, put,
  without, entry, inner_map, push_value, push_nested, get_elem?, length, arith, Bool-cases,
  Option-cases, inl, inr,
}
use witcherscript_language.Symbols.Symbol.{SymbolId, Symbol}
use witcherscript_language.Symbols.Document.{
  indices_from, in_range, checked_sort, each_value, key_at,
}

abbrev pub Below : ℕ → List ℕ → Type 0
Below n l = All (λ i. i < n) l

Below-insert :
    (n : ℕ) (key : ℕ → ℕ) (x : ℕ) (l : List ℕ) → x < n → Below n l → Below n (insert_by key x l)
unfolding insert_by
Below-insert n key x [] h k = (h, tt)
Below-insert n key x (y ∷ l) h (k, m) = elim (Bool-cases (leb (key x) (key y))) [
  | inl q ↦ rw q (h, (k, m))
  | inr q ↦ rw q (k, Below-insert n key x l h m)
]

pub Below-sort : (n : ℕ) (key : ℕ → ℕ) (l : List ℕ) → Below n l → Below n (sort_by_key key l)
unfolding sort_by_key
Below-sort n key [] h = tt
Below-sort n key (x ∷ l) (h, k) = Below-insert n key x (sort_by_key key l) h (Below-sort n key l k)

pub Below-indices : (n at m : ℕ) → at + m ≤ n → Below n (indices_from at m)
Below-indices n at zero h = tt
Below-indices n at (suc m) h = (omega arith, Below-indices n (at + 1) m (omega arith))

Below-append : (n : ℕ) (l : List ℕ) (x : ℕ) → Below n l → x < n → Below n (l ++ x ∷ [])
Below-append n [] x h k = (k, tt)
Below-append n (y ∷ l) x (h, m) k = (h, Below-append n l x m k)

pub get_elem?-below :
    (ss : List Symbol) (i : ℕ) → i < length ss → (s : Symbol) × (get_elem? ss i ≡ some s)
get_elem?-below [] i h = absurd (omega arith)
get_elem?-below (s ∷ ss) zero h = (s, refl)
get_elem?-below (s ∷ ss) (suc i) h = get_elem?-below ss i (omega arith)

in_range-Below :
    (every : List Symbol) (l : List ℕ) → Below (length every) l → in_range every l ≡ true
unfolding in_range
in_range-Below every [] h = refl
in_range-Below every (i ∷ l) (h, k) =
    let (s, found) = get_elem?-below every i h in rw (found, in_range-Below every l k) refl

-- no key of ids in range panics
pub checked_sort-Below :
    (every : List Symbol) (key : Symbol → ℕ) (l : List ℕ)
    → Below (length every) l
    → checked_sort every key l ≡ some (sort_by_key (key_at every key) l)
unfolding checked_sort
checked_sort-Below every key l h = elim (Bool-cases (leb (length l) 1)) [
  | inl q ↦ rw q refl
  | inr q ↦ rw (q, in_range-Below every l h) refl
]

-- every value of a map has a property
abbrev pub Values : {K V : Type 0} → (V → Type 0) → Assoc K V → Type 0
Values P m = All (λ e. P e.1) m

module _ {K V : Type 0} (key : KeyEq K) (P : V → Type 0) where
  Values-without : (k : K) (m : Assoc K V) → Values P m → Values P (without key k m)
  unfolding without
  Values-without k [] h = tt
  Values-without k ((j, v) ∷ m) (h, r) = elim (Bool-cases (key.eqb j k)) [
    | inl q ↦ rw q (Values-without k m r)
    | inr q ↦ rw q (h, Values-without k m r)
  ]

  Values-put : (k : K) (v : V) (m : Assoc K V) → P v → Values P m → Values P (put key k v m)
  unfolding put
  Values-put k v m h r = (h, Values-without k m r)

  Values-get : (k : K) (m : Assoc K V) (v : V) → Values P m → get key k m ≡ some v → P v
  unfolding get
  Values-get k [] v h e = cc
  Values-get k ((j, w) ∷ m) v (h, r) e = elim (Bool-cases (key.eqb j k)) [
    | inl q ↦ let same : some w ≡ some v = rw q at e in of_some same
    | inr q ↦ Values-get k m v r (rw q at e)
  ]
    where
      of_some : some w ≡ some v → P v
      of_some same = subst P (ap (λ o. unwrap_or o w) same) h

each_value-some :
    {K V : Type 0} (P : V → Type 0) (f : V → Option V)
    → ((v : V) → P v → (w : V) × (f v ≡ some w))
    → (m : Assoc K V) → Values P m
    → (r : Assoc K V) × (each_value f m ≡ some r)
unfolding each_value
each_value-some P f total [] h = ([], refl)
each_value-some P f total ((k, v) ∷ m) (h, hs) =
    let (w, e) = total v h in
    let (r, q) = each_value-some P f total m hs in ((k, w) ∷ r, rw (e, q) refl)

-- every id of the map is in range
abbrev pub InLocals : List Symbol → Assoc SymbolId (Assoc Text (List SymbolId)) → Type 0
InLocals every locals = Values (λ by_name. Values (Below (length every)) by_name) locals

pub InLocals-push_nested :
    (every : List Symbol) (function id : SymbolId) (n : Text)
    (locals : Assoc SymbolId (Assoc Text (List SymbolId)))
    → id < length every
    → InLocals every locals
    → InLocals every (push_nested nat_key text_key function n id locals)
unfolding push_nested push_value
InLocals-push_nested every function id n locals b h =
    let by_name : Assoc Text (List SymbolId) = inner_map nat_key text_key function locals in
    let inner : Values (Below (length every)) by_name =
      elim (Option-cases (get nat_key function locals)) [
        | inl out ↦ rw out tt
        | inr (m, found) ↦
            rw found
              (Values-get nat_key (λ m. Values (Below (length every)) m) function locals m h found)
      ] in
    let ids : Below (length every) (entry text_key n by_name) =
      elim (Option-cases (get text_key n by_name)) [
        | inl out ↦ rw out tt
        | inr (l, found) ↦
            rw found (Values-get text_key (Below (length every)) n by_name l inner found)
      ] in
    Values-put nat_key (λ m. Values (Below (length every)) m) function
      (push_value text_key n id by_name) locals
      (Values-put text_key (Below (length every)) n (entry text_key n by_name ++ id ∷ []) by_name
        (Below-append (length every) (entry text_key n by_name) id ids b) inner)
      h

-- sorting every list of the map
pub each_value-checked_sort :
    (every : List Symbol) (key : Symbol → ℕ) (locals : Assoc SymbolId (Assoc Text (List SymbolId)))
    → InLocals every locals
    → (r : Assoc SymbolId (Assoc Text (List SymbolId))) × (each_value
          (each_value (checked_sort every key))
          locals
        ≡ some r)
each_value-checked_sort every key locals h =
    each_value-some (λ by_name. Values (Below (length every)) by_name)
      (each_value (checked_sort every key))
      (λ by_name b.
        each_value-some (Below (length every)) (checked_sort every key)
          (λ l k. (sort_by_key (key_at every key) l, checked_sort-Below every key l k)) by_name b)
      locals h
