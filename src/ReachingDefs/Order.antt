-- ===== src/ReachingDefs/Order.antt =====
-- Evaluating a region definition by definition, as `effect` does, leaves the one that the analysis
-- finds there.
use witcherscript_language.Base.{
  ℕ, ◌+◌, ◌≤◌, ◌≡◌, refl, sym, ap, ◌∙◌, inl, inr, Bool, true, false, ◌&&◌, filter, Option, none,
  some, List, [], ◌∷◌, All, leb, leb→le, leb→lt, or_else, insert_by, sort_by_key, Bool-cases,
  Option-cases, if◌then◌else◌, arith,
}
use witcherscript_language.ReachingDefs.Syntax.{Span, within}
use witcherscript_language.ReachingDefs.Analyzer.{LocalDefinition, later_of, latest_from, latest_in}
use witcherscript_language.ReachingDefs.Semantics.{
  Held, Event, numbered, starts_at, replay, effect, seen,
}

-- the last event in the region
top : Span → List Event → Option Event
top r [] = none
top r (x ∷ l) = or_else (top r l) (if within x.1 r then some x else none)

left_by : Option Event → Held → Held
left_by none d = d
left_by (some x) d = some x.0

replay-top : (r : Span) (l : List Event) (d : Held) → replay r l d ≡ left_by (top r l) d
unfolding replay top left_by
replay-top r [] d = refl
replay-top r (x ∷ l) d = elim (Option-cases (top r l)) [
  | inl out ↦ elim (Bool-cases (within x.1 r)) [
    | inl w ↦ rw (w, out) (replay-top r l (some x.0) ∙ rw out refl)
    | inr w ↦ rw (w, out) (replay-top r l d ∙ rw out refl)
  ]
  | inr (z, found) ↦ elim (Bool-cases (within x.1 r)) [
    | inl w ↦ rw (w, found) (replay-top r l (some x.0) ∙ rw found refl)
    | inr w ↦ rw (w, found) (replay-top r l d ∙ rw found refl)
  ]
]

abbrev From : ℕ → List Event → Type 0
From n l = All (λ z. n ≤ starts_at z) l

abbrev Ascends : List Event → Type 0
Ascends [] = Unit
Ascends (x ∷ l) = From (starts_at x) l × Ascends l

From-weaken : (m n : ℕ) (l : List Event) → m ≤ n → From n l → From m l
From-weaken m n [] h f = tt
From-weaken m n (z ∷ l) h (e, f) = (omega arith, From-weaken m n l h f)

From-insert_by :
    (n : ℕ) (x : Event) (l : List Event)
    → n ≤ starts_at x
    → From n l
    → From n (insert_by starts_at x l)
unfolding insert_by
From-insert_by n x [] h f = (h, tt)
From-insert_by n x (y ∷ l) h (e, f) = elim (Bool-cases (leb (starts_at x) (starts_at y))) [
  | inl q ↦ rw q (h, (e, f))
  | inr q ↦ rw q (e, From-insert_by n x l h f)
]

Ascends-insert_by : (x : Event) (l : List Event) → Ascends l → Ascends (insert_by starts_at x l)
unfolding insert_by
Ascends-insert_by x [] h = (tt, tt)
Ascends-insert_by x (y ∷ l) (f, h) = elim (Bool-cases (leb (starts_at x) (starts_at y))) [
  | inl q ↦
      let le : starts_at x ≤ starts_at y = leb→le (starts_at x) (starts_at y) q in
      rw q ((le, From-weaken (starts_at x) (starts_at y) l le f), (f, h))
  | inr q ↦
      let lt = leb→lt (starts_at x) (starts_at y) q in
      rw q (From-insert_by (starts_at y) x l (omega (arith, lt)) f, Ascends-insert_by x l h)
]

Ascends-sort : (l : List Event) → Ascends (sort_by_key starts_at l)
unfolding sort_by_key
Ascends-sort [] = tt
Ascends-sort (x ∷ l) = Ascends-insert_by x (sort_by_key starts_at l) (Ascends-sort l)

From-top :
    (n : ℕ) (r : Span) (l : List Event) (z : Event) → From n l → top r l ≡ some z → n ≤ starts_at z
unfolding top
From-top n r [] z f e = cc
From-top n r (x ∷ l) z (h, f) e = elim (Option-cases (top r l)) [
  | inl out ↦ elim (Bool-cases (within x.1 r)) [
    | inl w ↦ let same : x ≡ z = of_some (rw (out, w) at e) in rw (← same) h
    | inr w ↦ absurd (none_some (rw (out, w) at e))
  ]
  | inr (y, found) ↦ From-top n r l z f (found ∙ (rw found at e))
]
  where
    of_some : {x z : Event} → some x ≡ some z → x ≡ z
    of_some h = cc

    none_some : ◌≡◌ {A = Option Event} none (some z) → ⊥
    none_some h = cc

-- the later of two events, the second where they start together
later : Event → Option Event → Option Event
later x none = some x
later x (some z) = if leb (starts_at x) (starts_at z) then some z else some x

leb-true : (m n : ℕ) → m ≤ n → leb m n ≡ true
leb-true m n h = ground arith

first_or_later :
    (x : Event) (w : Bool) (t : Option Event)
    → ((z : Event) → t ≡ some z → starts_at x ≤ starts_at z)
    → or_else t (if w then some x else none) ≡ (if w then later x t else t)
unfolding later
first_or_later x true none h = refl
first_or_later x false none h = refl
first_or_later x true (some z) h = rw (leb-true (starts_at x) (starts_at z) (h z refl)) refl
first_or_later x false (some z) h = refl

in_front :
    (r : Span) (x y : Event) (l : List Event)
    → From (starts_at x) (y ∷ l)
    → or_else (top r (y ∷ l)) (if within x.1 r then some x else none)
      ≡ (if within x.1 r then later x (top r (y ∷ l)) else top r (y ∷ l))
in_front r x y l f =
    first_or_later x (within x.1 r) (top r (y ∷ l)) (λ z e. From-top (starts_at x) r (y ∷ l) z f e)

behind :
    (r : Span) (x y : Event) (l : List Event) (inserted : Option Event)
    → leb (starts_at x) (starts_at y) ≡ false
    → inserted ≡ (if within x.1 r then later x (top r l) else top r l)
    → or_else inserted (if within y.1 r then some y else none)
      ≡ (if within x.1 r then later x (top r (y ∷ l)) else top r (y ∷ l))
unfolding later top
behind r x y l inserted q e = elim (Bool-cases (within x.1 r)) [
  | inr w ↦ rw (e, w) refl
  | inl w ↦ elim (Option-cases (top r l)) [
    | inl out ↦ elim (Bool-cases (within y.1 r)) [
      | inl v ↦ rw (e, w, out, v, q) refl
      | inr v ↦ rw (e, w, out, v) refl
    ]
    | inr (z, found) ↦ elim (Bool-cases (leb (starts_at x) (starts_at z))) [
      | inl v ↦ rw (e, w, found, v) refl
      | inr v ↦ rw (e, w, found, v) refl
    ]
  ]
]

top-insert_by :
    (r : Span) (x : Event) (l : List Event)
    → Ascends l
    → top r (insert_by starts_at x l) ≡ (if within x.1 r then later x (top r l) else top r l)
unfolding insert_by top later
top-insert_by r x [] h = refl
top-insert_by r x (y ∷ l) (f, h) = elim (Bool-cases (leb (starts_at x) (starts_at y))) [
  | inl q ↦
      let le = leb→le (starts_at x) (starts_at y) q in
      rw q (in_front r x y l (le, From-weaken (starts_at x) (starts_at y) l le f))
  | inr q ↦ rw q (behind r x y l (top r (insert_by starts_at x l)) q (top-insert_by r x l h))
]

-- the analysis' best definition so far, and the last event behind it
best_of : Option (ℕ × ℕ) → Option Event → Option (ℕ × ℕ)
best_of b none = b
best_of none (some z) = some (z.0, starts_at z)
best_of (some (j, s)) (some z) =
    if leb s (starts_at z) then some (z.0, starts_at z) else some (j, s)

best_of-later :
    (b : Option (ℕ × ℕ)) (x : Event) (t : Option Event)
    → best_of (later_of b x.0 (starts_at x)) t ≡ best_of b (later x t)
unfolding best_of later later_of
best_of-later none x none = refl
best_of-later none x (some z) = elim (Bool-cases (leb (starts_at x) (starts_at z))) [
  | inl q ↦ rw q refl
  | inr q ↦ rw q refl
]
best_of-later (some (j, s)) x none = elim (Bool-cases (leb s (starts_at x))) [
  | inl q ↦ rw q refl
  | inr q ↦ rw q refl
]
best_of-later (some (j, s)) x (some z) = elim (Bool-cases (leb s (starts_at x))) [
  | inl p ↦ elim (Bool-cases (leb (starts_at x) (starts_at z))) [
    | inl q ↦ rw (p, q, both s (starts_at x) (starts_at z) p q) refl
    | inr q ↦ rw (p, q, p) refl
  ]
  | inr p ↦ elim (Bool-cases (leb (starts_at x) (starts_at z))) [
    | inl q ↦ rw (p, q) refl
    | inr q ↦ rw (p, q, neither s (starts_at x) (starts_at z) p q, p) refl
  ]
]
  where
    both : (l m n : ℕ) → leb l m ≡ true → leb m n ≡ true → leb l n ≡ true
    both l m n p q = ground arith

    neither : (l m n : ℕ) → leb l m ≡ false → leb m n ≡ false → leb l n ≡ false
    neither l m n p q = ground arith

latest_from-top :
    (r : Span) (ds : List LocalDefinition) (i : ℕ) (b : Option (ℕ × ℕ))
    → latest_from ds i r b ≡ best_of b (top r (sort_by_key starts_at (numbered i ds)))
unfolding latest_from numbered sort_by_key top
latest_from-top r [] i b = unfold best_of in refl
latest_from-top r (d ∷ ds) i b =
    let event : Event = (i, d.owner) in
    let sorted : List Event = sort_by_key starts_at (numbered (i + 1) ds) in
    let above : top r (insert_by starts_at event sorted)
        ≡ (if within d.owner r then later event (top r sorted) else top r sorted) =
      top-insert_by r event sorted (Ascends-sort (numbered (i + 1) ds)) in
    latest_from-top r ds (i + 1) (if within d.owner r then later_of b i d.owner.start else b)
    ∙ elim (Bool-cases (within d.owner r)) [
      | inl w ↦ rw (w, above, w) (best_of-later b event (top r sorted))
      | inr w ↦ rw (w, above, w) refl
    ]

-- what the analysis finds in a region is what evaluating the region leaves
pub effect-latest_in :
    (defs : List LocalDefinition) (r : Span) (d : Held)
    → effect defs r d ≡ elim (latest_in defs r) [ none ↦ d | some i ↦ some i ]
unfolding effect latest_in left_by best_of
effect-latest_in defs r d =
    replay-top r (sort_by_key starts_at (numbered 0 defs)) d
    ∙ by_last (top r (sort_by_key starts_at (numbered 0 defs))) d
    ∙ ap (λ (b : Option (ℕ × ℕ)). found_or d b) (sym (latest_from-top r defs 0 none))
  where
    found_or : Held → Option (ℕ × ℕ) → Held
    found_or d b =
        elim (elim b as (λ _. Option ℕ) [ none ↦ none | some (i, _) ↦ some i ]) as (λ _. Held) [
          | none ↦ d
          | some i ↦ some i
        ]

    by_last : (t : Option Event) (d : Held) → left_by t d ≡ found_or d (best_of none t)
    by_last none d = refl
    by_last (some z) d = refl

pub effect-none :
    (defs : List LocalDefinition) (r : Span) (d : Held)
    → latest_in defs r ≡ none
    → effect defs r d ≡ d
effect-none defs r d n = effect-latest_in defs r d ∙ rw n refl

pub effect-some :
    (defs : List LocalDefinition) (r : Span) (d : Held) (i : ℕ)
    → latest_in defs r ≡ some i
    → effect defs r d ≡ some i
effect-some defs r d i s = effect-latest_in defs r d ∙ rw s refl

All-insert_by :
    (P : Event → Type 0) (x : Event) (l : List Event)
    → P x
    → All P l
    → All P (insert_by starts_at x l)
unfolding insert_by
All-insert_by P x [] h k = (h, tt)
All-insert_by P x (y ∷ l) h (e, k) = elim (Bool-cases (leb (starts_at x) (starts_at y))) [
  | inl q ↦ rw q (h, (e, k))
  | inr q ↦ rw q (e, All-insert_by P x l h k)
]

All-sort : (P : Event → Type 0) (l : List Event) → All P l → All P (sort_by_key starts_at l)
unfolding sort_by_key
All-sort P [] h = tt
All-sort P (x ∷ l) (h, k) = All-insert_by P x (sort_by_key starts_at l) h (All-sort P l k)

-- No definition in the region takes effect before the read.
abbrev pub Undisturbed : List LocalDefinition → (ℕ → Span → Bool) → Span → Span → Type 0
Undisturbed defs lands_before region read =
    All (λ x. (within x.1 region && lands_before x.0 read) ≡ false) (numbered 0 defs)

replay_skip :
    (region : Span) (x : Event) (l : List Event) (d : Held)
    → within x.1 region ≡ false
    → replay region (x ∷ l) d ≡ replay region l d
unfolding replay
replay_skip region x l d h = rw h refl

replay-filter :
    (lands_before : ℕ → Span → Bool) (region read : Span) (l : List Event) (d : Held)
    → All (λ x. (within x.1 region && lands_before x.0 read) ≡ false) l
    → replay region (filter (λ x. lands_before x.0 read) l) d ≡ d
unfolding filter
replay-filter lands_before region read [] d h = unfold replay in refl
replay-filter lands_before region read (x ∷ l) d (h, k) =
    elim (Bool-cases (lands_before x.0 read)) [
      | inl q ↦ rw q (
          replay_skip region x (filter (λ x. lands_before x.0 read) l) d
            (outside (within x.1 region) (lands_before x.0 read) q h)
          ∙ replay-filter lands_before region read l d k)
      | inr q ↦ rw q (replay-filter lands_before region read l d k)
    ]
  where
    outside : (a b : Bool) → b ≡ true → (a && b) ≡ false → a ≡ false
    outside a b q h = ground arith

pub seen-Undisturbed :
    (defs : List LocalDefinition) (lands_before : ℕ → Span → Bool) (region read : Span) (d : Held)
    → Undisturbed defs lands_before region read
    → seen defs lands_before region read d ≡ d
unfolding seen
seen-Undisturbed defs lands_before region read d h =
    replay-filter lands_before region read (sort_by_key starts_at (numbered 0 defs)) d
      (All-sort (λ x. (within x.1 region && lands_before x.0 read) ≡ false) (numbered 0 defs) h)
