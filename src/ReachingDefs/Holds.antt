-- ===== src/ReachingDefs/Holds.antt =====
-- When a mask covers the state of a run, and the laws of `union` under it.
use witcherscript_language.Base.{
  ℕ, ◌≡◌, refl, inl, inr, Option, none, some, true, List, arith, unwrap_or, Option-cases,
}
use witcherscript_language.ReachingDefs.Syntax.{Span}
use witcherscript_language.ReachingDefs.Masks.{Mask, bit, bits_or, union}
use witcherscript_language.ReachingDefs.Analyzer.{
  LocalDefinition, Analyzer, Flow, latest_in, gen_in, gen_field,
}
use witcherscript_language.ReachingDefs.Semantics.{
  Held, Exit, falls, breaks, continues, returns, effect, effect_field,
}
use witcherscript_language.ReachingDefs.Order.{effect-none, effect-some}

-- Before its first definition the variable is covered by every mask.
abbrev pub In : Mask → Held → Type 0
In m none = Unit
In m (some k) = m k ≡ true

-- `none` is a point that no run reaches.
abbrev pub InFlow : Option Mask → Held → Type 0
InFlow none d = ⊥
InFlow (some m) d = In m d

abbrev pub exit_of : Exit → Flow → Option Mask
exit_of falls f = f.normal
exit_of breaks f = f.breaks
exit_of continues f = f.continues
exit_of returns f = f.returns

pub In-or_left : (x y : Mask) (d : Held) → In x d → In (bits_or x y) d
In-or_left x y none h = tt
In-or_left x y (some k) h = ground arith

pub In-or_right : (x y : Mask) (d : Held) → In y d → In (bits_or x y) d
In-or_right x y none h = tt
In-or_right x y (some k) h = ground arith

pub InFlow-union_left : (a b : Option Mask) (d : Held) → InFlow a d → InFlow (union a b) d
unfolding union
InFlow-union_left none b d h = absurd h
InFlow-union_left (some x) none d h = h
InFlow-union_left (some x) (some y) d h = In-or_left x y d h

pub InFlow-union_right : (a b : Option Mask) (d : Held) → InFlow b d → InFlow (union a b) d
unfolding union
InFlow-union_right a none d h = absurd h
InFlow-union_right none (some y) d h = h
InFlow-union_right (some x) (some y) d h = In-or_right x y d h

pub In-unwrap : (a : Option Mask) (m : Mask) (d : Held) → InFlow a d → In (unwrap_or a m) d
In-unwrap none m d h = absurd h
In-unwrap (some x) m d h = h

-- the header of a loop covers the state before it and what comes back
pub In-header_entry :
    (m : Mask) (u : Option Mask) (d : Held) → In m d → In (unwrap_or (union (some m) u) m) d
In-header_entry m u d h = In-unwrap (union (some m) u) m d (InFlow-union_left (some m) u d h)

pub In-header_back :
    (m : Mask) (u : Option Mask) (d : Held) → InFlow u d → In (unwrap_or (union (some m) u) m) d
In-header_back m u d h = In-unwrap (union (some m) u) m d (InFlow-union_right (some m) u d h)

-- Evaluating the region writes no definition.
abbrev pub Pure : List LocalDefinition → Option Span → Type 0
Pure defs none = Unit
Pure defs (some r) = latest_in defs r ≡ none

pub effect_field-Pure :
    (defs : List LocalDefinition) (r : Option Span) (d : Held)
    → Pure defs r
    → effect_field defs r d ≡ d
unfolding effect_field
effect_field-Pure defs none d h = refl
effect_field-Pure defs (some r) d h = effect-none defs r d h

bit_self : (i : ℕ) → bit i i ≡ true
bit_self i = ground arith

module _ (a : Analyzer) where
  pub gen_in-none : (r : Span) (m : Mask) → latest_in a.defs r ≡ none → gen_in a r m ≡ m
  unfolding gen_in
  gen_in-none r m n = rw (n, gen_in)

  pub gen_in-some :
      (r : Span) (m : Mask) (i : ℕ) → latest_in a.defs r ≡ some i → gen_in a r m ≡ bit i
  unfolding gen_in
  gen_in-some r m i s = rw (s, gen_in)

  pub In-gen : (r : Span) (m : Mask) (d : Held) → In m d → In (gen_in a r m) (effect a.defs r d)
  In-gen r m d h = elim (Option-cases (latest_in a.defs r)) [
    | inl n ↦ rw (gen_in-none r m n, effect-none a.defs r d n) h
    | inr (i, s) ↦ rw (gen_in-some r m i s, effect-some a.defs r d i s) (bit_self i)
  ]

  pub In-gen_field :
      (r : Option Span) (m : Mask) (d : Held)
      → In m d
      → In (gen_field a r m) (effect_field a.defs r d)
  unfolding gen_field effect_field
  In-gen_field none m d h = h
  In-gen_field (some r) m d h = In-gen r m d h

  -- what the iteration clause of a loop writes is in the header already
  pub In-gen_field_back :
      (r : Option Span) (m n : Mask) (d : Held)
      → In n d
      → ((e : Held) → In (gen_field a r m) e → In n e)
      → In n (effect_field a.defs r d)
  unfolding gen_field effect_field
  In-gen_field_back none m n d h k = h
  In-gen_field_back (some r) m n d h k = elim (Option-cases (latest_in a.defs r)) [
    | inl e ↦ rw (effect-none a.defs r d e) h
    | inr (i, e) ↦
        rw (effect-some a.defs r d i e) (k (some i) (rw (gen_in-some r m i e) (bit_self i)))
  ]
