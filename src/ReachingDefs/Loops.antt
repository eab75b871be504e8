-- ===== src/ReachingDefs/Loops.antt =====
-- The headers of the loops, against the rounds of a run.
use witcherscript_language.Base.{
  ◌≡◌, sym, refl, subst, inl, inr, Option, none, some, List, false, true, unwrap_or,
}
use witcherscript_language.ReachingDefs.Syntax.{Span, Body, while_stmt, do_while_stmt, for_stmt}
use witcherscript_language.ReachingDefs.Masks.{Mask, union}
use witcherscript_language.ReachingDefs.Analyzer.{
  Analyzer, Pass, Eval, Flow, eval_while, eval_do_while, eval_for_loop, eval_for, gen_field, learn,
  record_field,
}
use witcherscript_language.ReachingDefs.Semantics.{
  Held, Exit, Run, RunBody, Rounds, Resumes, falls, breaks, continues, returns, effect_field,
  while_ends, while_breaks, while_returns, do_ends, do_breaks, do_returns, for_ends, for_breaks,
  for_returns, no_round, round,
}
use witcherscript_language.ReachingDefs.Shape.{RunBody-Shape}
use witcherscript_language.ReachingDefs.Holds.{
  In, InFlow, exit_of, Pure, effect_field-Pure, In-header_entry, In-header_back, In-unwrap,
  InFlow-union_left, InFlow-union_right, In-gen_field, In-gen_field_back,
}
use witcherscript_language.ReachingDefs.Supported.{body_may_continue, RunBody-may_continue}

-- The flow that `f` computes covers the runs of the body `b`.
abbrev pub Covers : Analyzer → Body → Eval → Type 0
Covers a b f =
    (d d' : Held) (x : Exit) (state : Mask) (pass : Pass) (out : List Mask)
    → RunBody a.defs b d x d'
    → In state d
    → InFlow (exit_of x (f state pass out).0) d'

-- what the learning pass brings back to the header
abbrev pub back : Flow → Option Mask
back f = union f.normal f.continues

pub InFlow-back :
    (f : Flow) (x : Exit) (d : Held) → Resumes x → InFlow (exit_of x f) d → InFlow (back f) d
InFlow-back f falls d k h = InFlow-union_left f.normal f.continues d h
InFlow-back f continues d k h = InFlow-union_right f.normal f.continues d h
InFlow-back f breaks d k h = absurd k
InFlow-back f returns d k h = absurd k

module _ (a : Analyzer) (b : Body) (f : Eval) (covers : Covers a b f) where
  -- `header` covers the entry, what one round from the entry brings back, and is closed under `post`
  module _ (pre post : Option Span) (pure : Pure a.defs pre) (state header : Mask) (out : List Mask)
      (entry : (d : Held) → In state d → In header d)
      (comes_back : (d : Held)
        → InFlow (back (f state learn out).0) d
        → In header (effect_field a.defs post d))
      (closed : (d : Held) → In header d → In header (effect_field a.defs post d)) where
    pub Rounds-header : (d₀ d : Held) → Rounds a.defs pre post b d₀ d → In state d₀ → In header d
    Rounds-header d₀ d no_round h = entry d h
    Rounds-header d₀ d (round {d₁ = d₁} {d₂ = d₂} {x = x} rs r k) h =
        elim (RunBody-Shape a.defs r) [
          | inl const ↦ comes_back d₂ (
              InFlow-back (f state learn out).0 x d₂ k
                (covers d₀ d₂ x state learn out (const d₀) h))
          | inr (same, _) ↦ closed d₂ (
              subst (In header) (sym same) (
                subst (In header) (sym (effect_field-Pure a.defs pre d₁ pure))
                  (Rounds-header d₀ d₁ rs h)))
        ]

  -- a run of the body from a state that `m` covers, behind a condition that writes nothing
  pub covers_behind :
      (c : Option Span) (m : Mask) (pass : Pass) (out : List Mask) (x : Exit) (d d' : Held)
      → Pure a.defs c
      → RunBody a.defs b (effect_field a.defs c d) x d'
      → In m d
      → InFlow (exit_of x (f m pass out).0) d'
  covers_behind c m pass out x d d' pure r h =
      covers d d' x m pass out
        (subst (λ e. RunBody a.defs b e x d') (effect_field-Pure a.defs c d pure) r) h

  undo_effect :
      (c : Option Span) (m : Mask) (d : Held)
      → Pure a.defs c
      → In m d
      → In m (effect_field a.defs c d)
  undo_effect c m d pure h = subst (In m) (sym (effect_field-Pure a.defs c d pure)) h

  abbrev pub header : Mask → List Mask → Mask
  header state out = unwrap_or (union (some state) (back (f state learn out).0)) state

  -- the header of `while` and the entry of `do`: evaluating `post` writes nothing
  pub plain-Rounds :
      (pre post : Option Span) (d₀ d : Held) (state : Mask) (out : List Mask)
      → Pure a.defs pre
      → Pure a.defs post
      → Rounds a.defs pre post b d₀ d
      → In state d₀
      → In (header state out) d
  plain-Rounds pre post d₀ d state out p q =
      Rounds-header pre post p state (header state out) out
        (λ e h. In-header_entry state (back (f state learn out).0) e h)
        (λ e h.
          undo_effect post (header state out) e q
            (In-header_back state (back (f state learn out).0) e h))
        (λ e h. undo_effect post (header state out) e q h) d₀ d

  -- the `break` exits of a loop's second pass over its body
  abbrev loop_breaks : Option Span → Mask → Pass → List Mask → Option Mask
  loop_breaks c m pass out = (f m pass (record_field a c m pass out)).0.breaks

  pub while_covers :
      (c : Option Span) (d d' : Held) (x : Exit) (state : Mask) (pass : Pass) (out : List Mask)
      → Pure a.defs c
      → Run a.defs (while_stmt c b) d x d'
      → In state d
      → InFlow (exit_of x (eval_while a c f state pass out).0) d'
  unfolding eval_while
  while_covers c d d' x state pass out pure (while_ends {d₁ = d₁} rs) h =
      InFlow-union_left (some (header state out))
        (loop_breaks c (header state out) pass (f state learn out).1) (effect_field a.defs c d₁)
        (undo_effect c (header state out) d₁ pure (plain-Rounds c none d d₁ state out pure tt rs h))
  while_covers c d d' x state pass out pure (while_breaks {d₁ = d₁} rs r) h =
      InFlow-union_right (some (header state out)) _ d' (
        covers_behind c (header state out) pass _ breaks d₁ d' pure r
          (plain-Rounds c none d d₁ state out pure tt rs h))
  while_covers c d d' x state pass out pure (while_returns {d₁ = d₁} rs r) h =
      covers_behind c (header state out) pass _ returns d₁ d' pure r
        (plain-Rounds c none d d₁ state out pure tt rs h)

  pub do_while_covers :
      (c : Option Span) (d d' : Held) (x : Exit) (state : Mask) (pass : Pass) (out : List Mask)
      → Pure a.defs c
      → body_may_continue b ≡ false
      → Run a.defs (do_while_stmt c b) d x d'
      → In state d
      → InFlow (exit_of x (eval_do_while a c f state pass out).0) d'
  unfolding eval_do_while
  do_while_covers c d d' x state pass out pure never
        (do_ends {d₁ = d₁} {d₂ = d₂} {x = falls} rs r k) h =
      InFlow-union_left _ _ (effect_field a.defs c d₂) (
        subst (InFlow _) (sym (effect_field-Pure a.defs c d₂ pure)) (
          covers d₁ d₂ falls (header state out) pass _ r
            (plain-Rounds none c d d₁ state out tt pure rs h)))
  do_while_covers c d d' x state pass out pure never (do_ends {x = continues} rs r k) h =
      let may : body_may_continue b ≡ true = RunBody-may_continue a.defs r refl in cc
  do_while_covers c d d' x state pass out pure never (do_ends {x = breaks} rs r k) h = absurd k
  do_while_covers c d d' x state pass out pure never (do_ends {x = returns} rs r k) h = absurd k
  do_while_covers c d d' x state pass out pure never (do_breaks {d₁ = d₁} rs r) h =
      InFlow-union_right _ _ d' (
        covers d₁ d' breaks (header state out) pass _ r
          (plain-Rounds none c d d₁ state out tt pure rs h))
  do_while_covers c d d' x state pass out pure never (do_returns {d₁ = d₁} rs r) h =
      covers d₁ d' returns (header state out) pass _ r
        (plain-Rounds none c d d₁ state out tt pure rs h)

  abbrev pub for_header : Option Span → Mask → List Mask → Mask
  for_header p entry out =
      unwrap_or
        (union (some entry) (some (gen_field a p (unwrap_or (back (f entry learn out).0) entry))))
        entry

  pub for-Rounds :
      (c p : Option Span) (d₀ d : Held) (entry : Mask) (out : List Mask)
      → Pure a.defs c
      → Rounds a.defs c p b d₀ d
      → In entry d₀
      → In (for_header p entry out) d
  for-Rounds c p d₀ d entry out pure =
      let after : Mask = unwrap_or (back (f entry learn out).0) entry in
      let generated : Option Mask = some (gen_field a p after) in
      Rounds-header c p pure entry (for_header p entry out) out
        (λ e h. In-header_entry entry generated e h)
        (λ e h.
          In-header_back entry generated (effect_field a.defs p e)
            (In-gen_field a p after e (In-unwrap _ entry e h)))
        (λ e h.
          In-gen_field_back a p after (for_header p entry out) e h
            (λ g k. In-header_back entry generated g k))
        d₀ d

  pub for_covers :
      (i c p : Option Span) (d d' : Held) (x : Exit) (state : Mask) (pass : Pass) (out : List Mask)
      → Pure a.defs c
      → Run a.defs (for_stmt i c p b) d x d'
      → In state d
      → InFlow (exit_of x (eval_for a i c p f state pass out).0) d'
  unfolding eval_for eval_for_loop
  for_covers i c p d d' x state pass out pure (for_ends {d₁ = d₁} rs) h =
      let entry = gen_field a i state in
      let out₀ = record_field a i state pass out in
      let head = for_header p entry out₀ in
      InFlow-union_left (some head) (loop_breaks c head pass (f entry learn out₀).1)
        (effect_field a.defs c d₁)
        (undo_effect c head d₁ pure (
          for-Rounds c p (effect_field a.defs i d) d₁ entry out₀ pure rs
            (In-gen_field a i state d h)))
  for_covers i c p d d' x state pass out pure (for_breaks {d₁ = d₁} rs r) h =
      InFlow-union_right
        (some (for_header p (gen_field a i state) (record_field a i state pass out))) _ d'
        (covers_behind c _ pass _ breaks d₁ d' pure r (
          for-Rounds c p (effect_field a.defs i d) d₁ (gen_field a i state) _ pure rs
            (In-gen_field a i state d h)))
  for_covers i c p d d' x state pass out pure (for_returns {d₁ = d₁} rs r) h =
      covers_behind c (for_header p (gen_field a i state) _) pass _ returns d₁ d' pure r (
        for-Rounds c p (effect_field a.defs i d) d₁ (gen_field a i state) _ pure rs
          (In-gen_field a i state d h))
