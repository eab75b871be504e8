-- ===== src/ReachingDefs/Masks.antt =====
-- `Mask`, the bitset over the indices of the definitions. A `u128` is read by its bits: bit `i` of
-- the mask `m` is `m i`, and the bits from 128 on are not looked at.
use witcherscript_language.Base.{
  ℕ, zero, suc, ◌+◌, Bool, false, ◌||◌, Option, none, some, ltb, ◌==◌, if◌then◌else◌,
}

abbrev pub Mask : Type 0
Mask = ℕ → Bool

abbrev pub max_defs : ℕ
max_defs = 128

-- the mask 0
abbrev pub empty : Mask
empty i = false

-- `Mask::MAX`
abbrev pub full : Mask
full i = ltb i max_defs

-- `1u128 << i`
abbrev pub bit : ℕ → Mask
bit i j = i == j

-- `x | y`
abbrev pub bits_or : Mask → Mask → Mask
bits_or x y j = x j || y j

unfoldable pub union : Option Mask → Option Mask → Option Mask
union (some x) (some y) = some (bits_or x y)
union (some x) none = some x
union none b = b

unfoldable pub ones_below : ℕ → Mask → ℕ
ones_below zero m = 0
ones_below (suc n) m = (if m n then 1 else 0) + ones_below n m

unfoldable pub first_one : ℕ → ℕ → Mask → ℕ
first_one zero i m = i
first_one (suc left) i m = let later = first_one left (i + 1) m in if m i then i else later

-- `mask.count_ones()` and `mask.trailing_zeros()`
unfoldable pub count_ones : Mask → ℕ
unfolding ones_below
count_ones m = ones_below max_defs m

unfoldable pub trailing_zeros : Mask → ℕ
unfolding first_one
trailing_zeros m = first_one max_defs 0 m

unfoldable pub sole_def : Mask → Option ℕ
unfolding count_ones trailing_zeros
sole_def mask = if count_ones mask == 1 then some (trailing_zeros mask) else none
