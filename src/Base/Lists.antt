-- ===== src/Base/Lists.antt =====
-- Lists measured and indexed by native numbers, under the library's names.
use Prim.Native.Nat.{ℕ, zero, suc, ◌+◌}
use mathlib.Core.Path.{◌≡◌, refl, ap, ◌∙◌}
use mathlib.Core.Logic.{inl, inr}
use mathlib.Core.Bool.{Bool, true, false, not, ◌&&◌, ◌||◌}
use mathlib.Core.List.{List, [], ◌∷◌, ◌++◌, map}
use witcherscript_language.Base.Tests.{if◌then◌else◌, leb, Bool-cases}
use mathlib.Core.Option.{Option, none, some}
use native.Mathlib.Omega.{arith}

module _ {ℓ} {A : Type ℓ} where
  unfoldable pub is_empty : List A → Bool
  is_empty [] = true
  is_empty (x ∷ xs) = false

  abbrev pub length : List A → ℕ
  length [] = 0
  length (x ∷ xs) = suc (length xs)

  abbrev pub get_elem? : List A → ℕ → Option A
  get_elem? [] i = none
  get_elem? (x ∷ xs) zero = some x
  get_elem? (x ∷ xs) (suc i) = get_elem? xs i

  abbrev pub take : ℕ → List A → List A
  take zero xs = []
  take (suc n) [] = []
  take (suc n) (x ∷ xs) = x ∷ take n xs

  abbrev pub drop : ℕ → List A → List A
  drop zero xs = xs
  drop (suc n) [] = []
  drop (suc n) (x ∷ xs) = drop n xs

  pub length-append : (xs ys : List A) → length (xs ++ ys) ≡ length xs + length ys
  length-append [] ys = omega arith
  length-append (x ∷ xs) ys = omega (arith, length-append xs ys)

module _ {ℓ} {A : Type ℓ} where
  pub get_elem?-append :
      (xs ys : List A) (i : ℕ) → get_elem? (xs ++ ys) (length xs + i) ≡ get_elem? ys i
  get_elem?-append [] ys i = ap (get_elem? ys) (omega arith)
  get_elem?-append (x ∷ xs) ys i =
      let later : suc (length xs) + i ≡ suc (length xs + i) = omega arith in
      ap (get_elem? (x ∷ (xs ++ ys))) later ∙ get_elem?-append xs ys i

  -- `iter().any(p)` and `iter().all(p)`, which stop at the first answer
  unfoldable pub any : (A → Bool) → List A → Bool
  any p [] = false
  any p (x ∷ xs) = p x || any p xs

  unfoldable pub all : (A → Bool) → List A → Bool
  all p [] = true
  all p (x ∷ xs) = p x && all p xs

module _ {ℓ κ} {A : Type ℓ} (P : A → Type κ) where
  abbrev pub All : List A → Type κ
  All [] = Unit
  All (x ∷ xs) = P x × All xs

module _ {ℓ} {A : Type ℓ} where
  unfoldable pub filter : (A → Bool) → List A → List A
  filter p [] = []
  filter p (x ∷ xs) = let rest = filter p xs in if p x then x ∷ rest else rest

  -- `iter().find(p)`
  unfoldable pub find : (A → Bool) → List A → Option A
  find p [] = none
  find p (x ∷ xs) = let rest = find p xs in if p x then some x else rest

  -- the stable `sort_by_key`
  unfoldable pub insert_by : (A → ℕ) → A → List A → List A
  insert_by key x [] = x ∷ []
  insert_by key x (y ∷ ys) =
      let later = insert_by key x ys in if leb (key x) (key y) then x ∷ (y ∷ ys) else y ∷ later

  unfoldable pub sort_by_key : (A → ℕ) → List A → List A
  unfolding insert_by
  sort_by_key key [] = []
  sort_by_key key (x ∷ xs) = insert_by key x (sort_by_key key xs)

  pub filter-append :
      (p : A → Bool) (xs ys : List A) → filter p (xs ++ ys) ≡ filter p xs ++ filter p ys
  unfolding filter
  filter-append p [] ys = refl
  filter-append p (x ∷ xs) ys = elim (Bool-cases (p x)) [
    | inl e ↦ rw (e, filter-append p xs ys) refl
    | inr e ↦ rw (e, filter-append p xs ys) refl
  ]

  pub filter_swap : (p q : A → Bool) (xs : List A) → filter p (filter q xs) ≡ filter q (filter p xs)
  unfolding filter
  filter_swap p q [] = refl
  filter_swap p q (x ∷ xs) = elim (Bool-cases (p x)) [
    | inl e ↦ elim (Bool-cases (q x)) [
      | inl f ↦ rw (f, e, f, filter_swap p q xs) refl
      | inr f ↦ rw (f, e, f) (filter_swap p q xs)
    ]
    | inr e ↦ elim (Bool-cases (q x)) [
      | inl f ↦ rw (f, e) (filter_swap p q xs)
      | inr f ↦ rw (f, e) (filter_swap p q xs)
    ]
  ]

  pub filter_weaker :
      (p q : A → Bool)
      → ((x : A) → p x ≡ true → q x ≡ true)
      → (xs : List A) → filter p (filter q xs) ≡ filter p xs
  unfolding filter
  filter_weaker p q h [] = refl
  filter_weaker p q h (x ∷ xs) = elim (Bool-cases (p x)) [
    | inl e ↦ rw (h x e, e, filter_weaker p q h xs) refl
    | inr e ↦ elim (Bool-cases (q x)) [
      | inl f ↦ rw (f, e) (filter_weaker p q h xs)
      | inr f ↦ rw (f, e) (filter_weaker p q h xs)
    ]
  ]

  pub filter_contrary :
      (p q : A → Bool)
      → ((x : A) → q x ≡ true → p x ≡ false)
      → (xs : List A) → filter p (filter q xs) ≡ []
  unfolding filter
  filter_contrary p q h [] = refl
  filter_contrary p q h (x ∷ xs) = elim (Bool-cases (q x)) [
    | inl e ↦ rw (e, h x e) (filter_contrary p q h xs)
    | inr e ↦ rw e (filter_contrary p q h xs)
  ]

  pub filter-true : (p : A → Bool) → ((x : A) → p x ≡ true) → (xs : List A) → filter p xs ≡ xs
  unfolding filter
  filter-true p h [] = refl
  filter-true p h (x ∷ xs) = rw (h x, filter-true p h xs) refl

  pub filter-false : (p : A → Bool) → ((x : A) → p x ≡ false) → (xs : List A) → filter p xs ≡ []
  unfolding filter
  filter-false p h [] = refl
  filter-false p h (x ∷ xs) = rw (h x) (filter-false p h xs)

  -- what is left when the others are none
  pub filter-not : (p : A → Bool) (xs : List A) → filter p xs ≡ [] → filter (λ x. not (p x)) xs ≡ xs
  unfolding filter
  filter-not p [] e = refl
  filter-not p (x ∷ xs) e = elim (Bool-cases (p x)) [
    | inl q ↦ absurd (cons_nil (rw q at e))
    | inr q ↦ rw q (ap (λ l. x ∷ l) (filter-not p xs (rw q at e)))
  ]
    where
      cons_nil : {x : A} {l : List A} → ◌≡◌ {A = List A} (x ∷ l) [] → ⊥
      cons_nil h = cc

module _ {ℓ κ} {A : Type ℓ} {B : Type κ} where
  pub filter-map_true :
      (p : B → Bool) (f : A → B)
      → ((x : A) → p (f x) ≡ true)
      → (xs : List A) → filter p (map f xs) ≡ map f xs
  unfolding filter
  filter-map_true p f h [] = refl
  filter-map_true p f h (x ∷ xs) = rw (h x, filter-map_true p f h xs) refl

  pub filter-map_false :
      (p : B → Bool) (f : A → B)
      → ((x : A) → p (f x) ≡ false)
      → (xs : List A) → filter p (map f xs) ≡ []
  unfolding filter
  filter-map_false p f h [] = refl
  filter-map_false p f h (x ∷ xs) = rw (h x) (filter-map_false p f h xs)
