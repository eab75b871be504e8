-- ===== src/ReachingDefs/Sole.antt =====
-- `sole_def` and the members of a mask.
use witcherscript_language.Base.{
  ℕ, zero, suc, ◌+◌, ◌<◌, ◌≤◌, ◌≡◌, ◌≢◌, sym, inl, inr, true, none, some, arith, ◌==◌,
  if◌then◌else◌, Bool-cases, ==→≡, ==→≢, ◌∙◌,
}
use witcherscript_language.ReachingDefs.Masks.{Mask, max_defs, ones_below, first_one, sole_def}

ones_below-pos : (n : ℕ) (m : Mask) (k : ℕ) → k < n → m k ≡ true → 0 < ones_below n m
unfolding ones_below
ones_below-pos zero m k h t = elim h [ ]
ones_below-pos (suc n) m k h t = elim (Bool-cases (k == n)) [
  | inl e ↦ let same : k ≡ n = ground arith in let t' : m n ≡ true = rw (← same) t in ground arith
  | inr ne ↦ let rest : 0 < ones_below n m = ones_below-pos n m k (ground arith) t in omega arith
]

ones_below-two :
    (n : ℕ) (m : Mask) (j k : ℕ) → j < k → k < n → m j ≡ true → m k ≡ true → 1 < ones_below n m
unfolding ones_below
ones_below-two zero m j k h l s t = elim l [ ]
ones_below-two (suc n) m j k h l s t = elim (Bool-cases (k == n)) [
  | inl e ↦
      let same : k ≡ n = ground arith in
      let t' : m n ≡ true = rw (← same) t in
      let rest : 0 < ones_below n m = ones_below-pos n m j (omega arith) s in ground arith
  | inr ne ↦
      let rest : 1 < ones_below n m = ones_below-two n m j k h (ground arith) s t in omega arith
]

-- the first bit from `i` on, if a bit is there
first_one_lem :
    (left i : ℕ) (m : Mask) (k : ℕ)
    → i ≤ k
    → k < i + left
    → m k ≡ true
    → (first_one left i m ≤ k) × (m (first_one left i m) ≡ true)
unfolding first_one
first_one_lem zero i m k h l t = absurd (omega arith)
first_one_lem (suc left) i m k h l t = elim (Bool-cases (m i)) [
  | inl e ↦ rw e (h, e)
  | inr e ↦
      let further : i ≢ k = λ p. cc (e, t, p) in
      rw e (first_one_lem left (i + 1) m k (omega arith) (omega arith) t)
]

chosen :
    (count first i : ℕ)
    → (if count == 1 then some first else none) ≡ some i
    → (count ≡ 1) × (first ≡ i)
chosen count first i e = ground arith

-- The mask's only member below 128 is the one that `sole_def` returns.
pub sole_def_unique : (m : Mask) (i k : ℕ) → sole_def m ≡ some i → k < max_defs → m k ≡ true → k ≡ i
unfolding sole_def
sole_def_unique m i k e l t =
    let j : ℕ = first_one max_defs 0 m in
    let (one, is_i) = chosen (ones_below max_defs m) j i e in
    let (low, set) = first_one_lem max_defs 0 m k (omega arith) l t in
    elim (Bool-cases (j == k)) [
      | inl p ↦ sym (==→≡ j k p) ∙ is_i
      | inr p ↦
          let ne : j ≢ k = ==→≢ j k p in
          let two : 1 < ones_below max_defs m =
            ones_below-two max_defs m j k (omega arith) l set t in
          absurd (omega arith)
    ]
