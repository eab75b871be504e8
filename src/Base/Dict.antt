-- ===== src/Base/Dict.antt =====
-- Keys with a decidable equality, hash maps as association lists, and hash sets as lists.

use mathlib.Core.Path.{◌≡◌, refl}
use mathlib.Core.Logic.{◌↔◌}
use mathlib.Core.Bool.{Bool, true, false, not, ◌&&◌, ◌||◌}
use mathlib.Core.Option.{Option, none, some}
use mathlib.Core.List.{List, [], ◌∷◌}
use native.Mathlib.Omega.{arith}
use Prim.Native.Nat.{ℕ}
use witcherscript_language.Base.Tests.{◌==◌, ==_iff, Text, text_eq, text_eq_iff, if◌then◌else◌}

-- `Eq`
pub record KeyEq (K : Type 0) : Type 0 where
  pub eqb : K → K → Bool
  pub eqb_iff : (j k : K) → (eqb j k ≡ true) ↔ (j ≡ k)

abbrev pub text_key : KeyEq Text
text_key = record { eqb = text_eq; eqb_iff = text_eq_iff }

abbrev pub nat_key : KeyEq ℕ
nat_key = record { eqb = ◌==◌; eqb_iff = ==_iff }

abbrev pub Assoc : Type 0 → Type 0 → Type 0
Assoc K V = List (K × V)

module _ {K : Type 0} (key : KeyEq K) where
  -- `HashSet::contains`, `insert` and `remove`
  unfoldable pub contains : K → List K → Bool
  contains k [] = false
  contains k (j ∷ s) = key.eqb j k || contains k s

  unfoldable pub set_insert : K → List K → List K
  unfolding contains
  set_insert k s = if contains k s then s else k ∷ s

  unfoldable pub set_remove : K → List K → List K
  set_remove k [] = []
  set_remove k (j ∷ s) = let rest = set_remove k s in if key.eqb j k then rest else j ∷ rest

  pub contains-set_insert :
      (k j : K) (s : List K) → contains j (set_insert k s) ≡ (key.eqb k j || contains j s)
  unfolding contains set_insert
  contains-set_insert k j [] = refl
  contains-set_insert k j (i ∷ s) = ground (arith, key.eqb_iff k j, contains_same k j s)
    where
      contains_same : (k j : K) (s : List K) → k ≡ j → contains k s ≡ contains j s
      contains_same k j s e = rw e

  pub contains-set_remove :
      (k j : K) (s : List K) → contains j (set_remove k s) ≡ (contains j s && not (key.eqb k j))
  unfolding contains set_remove
  contains-set_remove k j [] = refl
  contains-set_remove k j (i ∷ s) =
      ground (arith, contains-set_remove k j s, key.eqb_iff i k, key.eqb_iff i j, key.eqb_iff k j)

  module _ {V : Type 0} where
    -- `HashMap::get`, `remove` and `insert`
    unfoldable pub get : K → Assoc K V → Option V
    get k [] = none
    get k ((j, v) ∷ m) = let later = get k m in if key.eqb j k then some v else later

    unfoldable pub without : K → Assoc K V → Assoc K V
    without k [] = []
    without k ((j, v) ∷ m) = let rest = without k m in if key.eqb j k then rest else (j, v) ∷ rest

    unfoldable pub put : K → V → Assoc K V → Assoc K V
    unfolding without
    put k v m = (k, v) ∷ without k m

    pub get-without :
        (k j : K) (m : Assoc K V) → get j (without k m) ≡ (if key.eqb k j then none else get j m)
    unfolding get without
    get-without k j [] = ground arith
    get-without k j ((i, v) ∷ m) =
        ground (arith, get-without k j m, key.eqb_iff i k, key.eqb_iff i j, key.eqb_iff k j)

    pub get-put :
        (k j : K) (v : V) (m : Assoc K V)
        → get j (put k v m) ≡ (if key.eqb k j then some v else get j m)
    unfolding get put
    get-put k j v m = ground (arith, get-without k j m)
