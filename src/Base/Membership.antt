-- ===== src/Base/Membership.antt =====
-- What is among the values of a list, for searches and filters.
use mathlib.Core.Path.{◌≡◌, refl, subst}
use mathlib.Core.Logic.{◌⊎◌, inl, inr}
use mathlib.Core.Bool.{Bool, true}
use mathlib.Core.Option.{Option, none, some}
use mathlib.Core.List.{List, [], ◌∷◌, map}
use witcherscript_language.Base.Tests.{Bool-cases}
use witcherscript_language.Base.Lists.{filter, find}

module _ {A : Type 0} where
  -- the value is among those of the list
  abbrev pub Among : A → List A → Type 0
  Among a [] = ⊥
  Among a (x ∷ xs) = (x ≡ a) ⊎ Among a xs

  pub find-Among :
      (p : A → Bool) (xs : List A) (a : A) → find p xs ≡ some a → Among a xs × (p a ≡ true)
  unfolding find
  find-Among p [] a e = absurd (none_some e)
    where
      none_some : {a : A} → ◌≡◌ {A = Option A} none (some a) → ⊥
      none_some h = cc
  find-Among p (x ∷ xs) a e = elim (Bool-cases (p x)) [
    | inl q ↦
        let same : some x ≡ some a = rw q at e in
        (inl (of_some same), subst (λ y. p y ≡ true) (of_some same) q)
    | inr q ↦ let (h, k) = find-Among p xs a (rw q at e) in (inr h, k)
  ]
    where
      of_some : {x a : A} → some x ≡ some a → x ≡ a
      of_some h = cc

  pub find-none : (p : A → Bool) (xs : List A) → find p xs ≡ none → filter p xs ≡ []
  unfolding find filter
  find-none p [] e = refl
  find-none p (x ∷ xs) e = elim (Bool-cases (p x)) [
    | inl q ↦ absurd (some_none (rw q at e))
    | inr q ↦ rw q (find-none p xs (rw q at e))
  ]
    where
      some_none : {x : A} → ◌≡◌ {A = Option A} (some x) none → ⊥
      some_none h = cc

  pub filter-Among :
      (p : A → Bool) (xs : List A) (a : A) → p a ≡ true → Among a xs → Among a (filter p xs)
  unfolding filter
  filter-Among p [] a e h = h
  filter-Among p (x ∷ xs) a e (inl same) = rw (same, e) (inl refl)
  filter-Among p (x ∷ xs) a e (inr h) = elim (Bool-cases (p x)) [
    | inl q ↦ rw q (inr (filter-Among p xs a e h))
    | inr q ↦ rw q (filter-Among p xs a e h)
  ]

  pub Among-filter :
      (p : A → Bool) (xs : List A) (a : A) → Among a (filter p xs) → Among a xs × (p a ≡ true)
  unfolding filter
  Among-filter p [] a h = absurd h
  Among-filter p (x ∷ xs) a h = elim (Bool-cases (p x)) [
    | inl q ↦ kept q (λ k. Among-filter p xs a k) (rw q at h)
    | inr q ↦ let (k, e) = Among-filter p xs a (rw q at h) in (inr k, e)
  ]
    where
      kept :
          p x ≡ true
          → (Among a (filter p xs) → Among a xs × (p a ≡ true))
          → (x ≡ a) ⊎ Among a (filter p xs)
          → ((x ≡ a) ⊎ Among a xs) × (p a ≡ true)
      kept q h (inl same) = (inl same, subst (λ y. p y ≡ true) same q)
      kept q h (inr k) = let (m, e) = h k in (inr m, e)

module _ {A B : Type 0} where
  pub Among-map :
      (f : A → B) (xs : List A) (b : B) → Among b (map f xs) → (a : A) × Among a xs × (f a ≡ b)
  Among-map f [] b h = absurd h
  Among-map f (x ∷ xs) b (inl e) = (x, inl refl, e)
  Among-map f (x ∷ xs) b (inr h) = let (a, k, e) = Among-map f xs b h in (a, inr k, e)
