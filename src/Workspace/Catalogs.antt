-- ===== src/Workspace/Catalogs.antt =====
-- The merged catalogs and the changed keys against their descriptions
-- (src/resolve/completion_catalog.rs and src/resolve/workspace_index/subscribers.rs).
use witcherscript_language.Base.{
  ℕ, ◌≡◌, refl, sym, ap, ◌∙◌, Bool, true, false, not, ◌&&◌, ◌||◌, Option, none, some, List, [], ◌∷◌,
  ◌++◌, append-nil, Assoc, contains, get, is_some, is_empty, map_or, filter, length, Bool-cases,
  inl, inr, arith, ◌==◌, ==→≡,
}
use witcherscript_language.Registry.Defs.{ObservedKey}
use witcherscript_language.Workspace.Defs.{Definition, merge_ws_base, shows}
use witcherscript_language.Workspace.Keys.{
  observed_key, observed_key_eq, observed_key_eq_iff, same_hash, changed_keys, dropped_keys,
  diff_outward_keys,
}

length-zero : (l : List Definition) → length l ≡ 0 → l ≡ []
length-zero [] e = refl
length-zero (x ∷ l) e = absurd (omega (arith, e))

shows_all : (base : List Definition) → filter (shows []) base ≡ base
unfolding filter contains
shows_all [] = refl
shows_all (d ∷ l) = ap (λ r. d ∷ r) (shows_all l)

-- merge_ws_base lists the workspace's definitions and then the base definitions whose type names no
-- workspace definition has, whichever of its shortcuts it takes.
pub merge_ws_base_lem :
    (ws base : List Definition) → merge_ws_base ws base ≡ ws ++ filter (shows ws) base
unfolding merge_ws_base is_empty
merge_ws_base_lem ws [] = unfold filter in sym (append-nil ws)
merge_ws_base_lem [] (d ∷ base) = sym (shows_all (d ∷ base))
merge_ws_base_lem (w ∷ ws) (d ∷ base) =
    elim (Bool-cases (length (filter (shows (w ∷ ws)) (d ∷ base)) == 0)) [
      | inl q ↦
          rw
            (
              q,
              length-zero (filter (shows (w ∷ ws)) (d ∷ base))
                  (==→≡ (length (filter (shows (w ∷ ws)) (d ∷ base))) 0 q),
            )
            (sym (append-nil (w ∷ ws)))
      | inr q ↦ rw q refl
    ]

-- the keys of a hash map are distinct
abbrev pub Distinct : Assoc ObservedKey ℕ → Type 0
Distinct [] = Unit
Distinct ((k, v) ∷ m) = (get observed_key k m ≡ none) × Distinct m

abbrev pub equal_hashes : Option ℕ → Option ℕ → Bool
equal_hashes none none = true
equal_hashes (some a) (some b) = a == b
equal_hashes _ _ = false

contains-append :
    (k : ObservedKey) (a b : List ObservedKey)
    → contains observed_key k (a ++ b) ≡ (contains observed_key k a || contains observed_key k b)
unfolding contains
contains-append k [] b = refl
contains-append k (j ∷ a) b = elim (Bool-cases (observed_key_eq j k)) [
  | inl e ↦ rw e refl
  | inr e ↦ rw e (contains-append k a b)
]

key_same : (j k : ObservedKey) → observed_key_eq j k ≡ true → j ≡ k
key_same j k e = (observed_key_eq_iff j k).0 e

and_not : (a b : Bool) → b ≡ true → (a && not b) ≡ not b
and_not true b e = refl
and_not false b e = rw e refl

contains-changed_keys :
    (prev next : Assoc ObservedKey ℕ) (k : ObservedKey)
    → Distinct next
    → contains observed_key k (changed_keys prev next)
      ≡ map_or (get observed_key k next) false (λ v. not (same_hash (get observed_key k prev) v))
unfolding contains changed_keys get
contains-changed_keys prev [] k h = refl
contains-changed_keys prev ((j, v) ∷ next) k (fresh, h) =
    let rest = contains-changed_keys prev next k h in
    elim (Bool-cases (observed_key_eq j k)) [
      | inl e ↦
          let same : j ≡ k = key_same j k e in
          let absent : get observed_key k next ≡ none =
            ap (λ i. get observed_key i next) (sym same) ∙ fresh in
          let before : get observed_key k prev ≡ get observed_key j prev =
            ap (λ i. get observed_key i prev) (sym same) in
          elim (Bool-cases (same_hash (get observed_key j prev) v)) [
            | inl q ↦ rw (e, before, q) (rest ∙ rw absent refl)
            | inr q ↦ rw (e, before, q, e) refl
          ]
      | inr e ↦ elim (Bool-cases (same_hash (get observed_key j prev) v)) [
        | inl q ↦ rw (e, q) rest
        | inr q ↦ rw (e, q, e) rest
      ]
    ]

contains-dropped_keys :
    (prev next : Assoc ObservedKey ℕ) (k : ObservedKey)
    → contains observed_key k (dropped_keys prev next)
      ≡ (is_some (get observed_key k prev) && not (is_some (get observed_key k next)))
unfolding contains dropped_keys get
contains-dropped_keys [] next k = refl
contains-dropped_keys ((j, v) ∷ prev) next k =
    let rest = contains-dropped_keys prev next k in
    elim (Bool-cases (observed_key_eq j k)) [
      | inl e ↦
          let after : get observed_key k next ≡ get observed_key j next =
            ap (λ i. get observed_key i next) (sym (key_same j k e)) in
          elim (Bool-cases (is_some (get observed_key j next))) [
            | inl q ↦
                rw (e, q)
                  (rest
                    ∙ and_not (is_some (get observed_key k prev))
                        (is_some (get observed_key k next)) (ap is_some after ∙ q))
            | inr q ↦ rw (e, q, e, after, q) refl
          ]
      | inr e ↦ elim (Bool-cases (is_some (get observed_key j next))) [
        | inl q ↦ rw (e, q) rest
        | inr q ↦ rw (e, q, e) rest
      ]
    ]

-- The keys that an update reports, against the hashes before: a key is reported exactly when its
-- hash is not the same as before, where it may have none before or none after.
pub contains-diff_outward_keys :
    (prev next : Assoc ObservedKey ℕ) (k : ObservedKey)
    → Distinct next
    → contains observed_key k (diff_outward_keys (some prev) next)
      ≡ not (equal_hashes (get observed_key k prev) (get observed_key k next))
unfolding diff_outward_keys
contains-diff_outward_keys prev next k h =
    contains-append k (changed_keys prev next) (dropped_keys prev next)
    ∙ rw (contains-changed_keys prev next k h, contains-dropped_keys prev next k)
        (by_hashes (get observed_key k prev) (get observed_key k next))
  where
    by_hashes :
        (a b : Option ℕ)
        → (map_or b false (λ v. not (same_hash a v)) || (is_some a && not (is_some b)))
          ≡ not (equal_hashes a b)
    by_hashes none none = refl
    by_hashes none (some v) = refl
    by_hashes (some h) none = refl
    by_hashes (some h) (some v) = elim (Bool-cases (h == v)) [
      | inl q ↦ rw q refl
      | inr q ↦ rw q refl
    ]
