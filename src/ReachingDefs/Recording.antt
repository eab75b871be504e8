-- ===== src/ReachingDefs/Recording.antt =====
-- The masks that one statement's evaluation records, against the regions that a run evaluates.
use witcherscript_language.Base.{Option, none, some, List, unwrap_or}
use witcherscript_language.ReachingDefs.Syntax.{
  Span, Body, if_stmt, while_stmt, do_while_stmt, for_stmt, present,
}
use witcherscript_language.ReachingDefs.Masks.{Mask}
use witcherscript_language.ReachingDefs.Analyzer.{
  Analyzer, Flow, Eval, learn, record_reads, record_field, eval_if, eval_while, eval_do_while,
  eval_for, eval_for_loop, gen_field,
}
use witcherscript_language.ReachingDefs.Semantics.{Held, Exit, RunBody, Resumes, effect_field}
use witcherscript_language.ReachingDefs.Reads.{
  ReadsBody, if_cond, in_then, in_else, while_cond, while_body, do_body, do_cond, for_init,
  for_cond, for_body, for_iter, in_body,
}
use witcherscript_language.ReachingDefs.Holds.{In, Pure, In-unwrap, In-gen_field}
use witcherscript_language.ReachingDefs.Loops.{
  Covers, back, InFlow-back, header, for_header, plain-Rounds, for-Rounds, covers_behind,
}
use witcherscript_language.ReachingDefs.Soundness.{In-behind}
use witcherscript_language.ReachingDefs.Growth.{
  Grows, Recorded, Recorded-grow, Recorded-region, Grows-trans, Grows-field, GrowsEval,
}

-- `f` records every read of the body `b`.
abbrev pub Records : Analyzer → Body → Eval → Type 0
Records a b f =
    (d d' : Held) (r : Span) (state : Mask) (out : List Mask)
    → ReadsBody a.defs b d r d'
    → In state d
    → Recorded a.reads (f state record_reads out).1 r d'

module _ (a : Analyzer) where
  pub Recorded-field :
      (r : Span) (state : Mask) (out : List Mask) (d : Held)
      → In state d
      → Recorded a.reads (record_field a (some r) state record_reads out) r d
  unfolding record_field
  Recorded-field r state out d h = Recorded-region a r state out d h

  pub if_Records :
      (c : Option Span) (t e : Body) (f g : Eval)
      → GrowsEval f
      → GrowsEval g
      → Records a t f
      → Records a e g
      → Pure a.defs c
      → Records a (present (if_stmt c t e)) (eval_if a c f g)
  unfolding eval_if
  if_Records c t e f g gf gg rt re pure d d' r state out (in_body if_cond) h =
      let o₀ = record_field a (some r) state record_reads out in
      let o₁ = (f state record_reads o₀).1 in
      Recorded-grow a.reads o₀ _ r d
        (Grows-trans o₀ o₁ (g state record_reads o₁).1 (gf state record_reads o₀)
          (gg state record_reads o₁))
        (Recorded-field r state out d h)
  if_Records c t e f g gf gg rt re pure d d' r state out (in_body (in_then q)) h =
      let o₀ = record_field a c state record_reads out in
      let o₁ = (f state record_reads o₀).1 in
      Recorded-grow a.reads o₁ _ r d' (gg state record_reads o₁)
        (rt (effect_field a.defs c d) d' r state o₀ q (In-behind a c state d pure h))
  if_Records c t e f g gf gg rt re pure d d' r state out (in_body (in_else q)) h =
      let o₀ = record_field a c state record_reads out in
      let o₁ = (f state record_reads o₀).1 in
      re (effect_field a.defs c d) d' r state o₁ q (In-behind a c state d pure h)

module _ (a : Analyzer) (b : Body) (f : Eval) (covers : Covers a b f) (grows : GrowsEval f)
    (records : Records a b f) where
  pub while-Records :
      (c : Option Span) → Pure a.defs c → Records a (present (while_stmt c b)) (eval_while a c f)
  unfolding eval_while
  while-Records c pure d d' r state out (in_body (while_cond rs)) h =
      let head = header a b f covers state out in
      let o₁ = (f state learn out).1 in
      let o₂ = record_field a (some r) head record_reads o₁ in
      Recorded-grow a.reads o₂ _ r d' (grows head record_reads o₂) (
        Recorded-field a r head o₁ d'
          (plain-Rounds a b f covers (some r) none d d' state out pure tt rs h))
  while-Records c pure d d' r state out (in_body (while_body {d₁ = d₁} rs q)) h =
      let head = header a b f covers state out in
      let o₁ = (f state learn out).1 in
      records (effect_field a.defs c d₁) d' r head (record_field a c head record_reads o₁) q
        (In-behind a c head d₁ pure (plain-Rounds a b f covers c none d d₁ state out pure tt rs h))

  pub do_while-Records :
      (c : Option Span)
      → Pure a.defs c
      → Records a (present (do_while_stmt c b)) (eval_do_while a c f)
  unfolding eval_do_while
  do_while-Records c pure d d' r state out (in_body (do_body {d₁ = d₁} rs q)) h =
      let entry = header a b f covers state out in
      let o₁ = (f state learn out).1 in
      let body₂ = f entry record_reads o₁ in
      Recorded-grow a.reads body₂.1 _ r d'
        (Grows-field a c (unwrap_or (back body₂.0) entry) record_reads body₂.1)
        (records d₁ d' r entry o₁ q (plain-Rounds a b f covers none c d d₁ state out tt pure rs h))
  do_while-Records c pure d d' r state out (in_body (do_cond {d₁ = d₁} {x = x} rs q k)) h =
      let entry = header a b f covers state out in
      let o₁ = (f state learn out).1 in
      let body₂ = f entry record_reads o₁ in
      Recorded-field a r (unwrap_or (back body₂.0) entry) body₂.1 d' (
        In-unwrap (back body₂.0) entry d' (
          InFlow-back body₂.0 x d' k (
            covers d₁ d' x entry record_reads o₁ q
              (plain-Rounds a b f covers none (some r) d d₁ state out tt pure rs h))))

  module _ (c p : Option Span) (pure : Pure a.defs c) (entry : Mask) (out : List Mask) where
    abbrev head : Mask
    head = for_header a b f covers p entry out

    abbrev first_out : List Mask
    first_out = (f entry learn out).1

    abbrev second : Flow × List Mask
    second = f head record_reads (record_field a c head record_reads first_out)

    Grows-iter : Grows second.1 (eval_for_loop a c p f entry record_reads out).1
    unfolding eval_for_loop
    Grows-iter = Grows-field a p (unwrap_or (back second.0) head) record_reads second.1

    Grows-body :
        Grows
          (record_field a c head record_reads first_out)
          (eval_for_loop a c p f entry record_reads out).1
    Grows-body = Grows-trans _ second.1 _ (grows head record_reads _) Grows-iter

  for_loop_cond :
      (c : Span) (p : Option Span) (pure : Pure a.defs (some c)) (entry : Mask) (out : List Mask)
      (d : Held)
      → In (head (some c) p pure entry out) d
      → Recorded a.reads (eval_for_loop a (some c) p f entry record_reads out).1 c d
  for_loop_cond c p pure entry out d h =
      Recorded-grow a.reads _ _ c d (Grows-body (some c) p pure entry out) (
        Recorded-field a c (head (some c) p pure entry out) (first_out (some c) p pure entry out) d
          h)

  for_loop_body :
      (c p : Option Span) (pure : Pure a.defs c) (entry : Mask) (out : List Mask) (d d' : Held)
      (r : Span)
      → ReadsBody a.defs b (effect_field a.defs c d) r d'
      → In (head c p pure entry out) d
      → Recorded a.reads (eval_for_loop a c p f entry record_reads out).1 r d'
  for_loop_body c p pure entry out d d' r q h =
      Recorded-grow a.reads _ _ r d' (Grows-iter c p pure entry out) (
        records (effect_field a.defs c d) d' r (head c p pure entry out) _ q
          (In-behind a c (head c p pure entry out) d pure h))

  for_loop_iter :
      (c : Option Span) (p : Span) (pure : Pure a.defs c) (entry : Mask) (out : List Mask)
      (d d' : Held) (x : Exit)
      → RunBody a.defs b (effect_field a.defs c d) x d'
      → Resumes x
      → In (head c (some p) pure entry out) d
      → Recorded a.reads (eval_for_loop a c (some p) f entry record_reads out).1 p d'
  unfolding eval_for_loop
  for_loop_iter c p pure entry out d d' x q k h =
      let m = head c (some p) pure entry out in
      let (flow, o) = second c (some p) pure entry out in
      Recorded-field a p (unwrap_or (back flow) m) o d' (
        In-unwrap (back flow) m d'
          (InFlow-back flow x d' k (covers_behind a b f covers c m record_reads _ x d d' pure q h)))

  pub for-Records :
      (i c p : Option Span)
      → Pure a.defs c
      → Records a (present (for_stmt i c p b)) (eval_for a i c p f)
  unfolding eval_for
  for-Records i c p pure d d' r state out (in_body for_init) h =
      let o₀ = record_field a (some r) state record_reads out in
      let entry = gen_field a (some r) state in
      Recorded-grow a.reads o₀ _ r d
        (Grows-trans o₀ (first_out c p pure entry o₀) _ (grows entry learn o₀) (
          Grows-trans (first_out c p pure entry o₀) _ _
            (Grows-field a c (head c p pure entry o₀) record_reads (first_out c p pure entry o₀))
            (Grows-body c p pure entry o₀)))
        (Recorded-field a r state out d h)
  for-Records i c p pure d d' r state out (in_body (for_cond rs)) h =
      let o₀ = record_field a i state record_reads out in
      let entry = gen_field a i state in
      for_loop_cond r p pure entry o₀ d' (
        for-Rounds a b f covers (some r) p (effect_field a.defs i d) d' entry o₀ pure rs
          (In-gen_field a i state d h))
  for-Records i c p pure d d' r state out (in_body (for_body {d₁ = d₁} rs q)) h =
      let o₀ = record_field a i state record_reads out in
      let entry = gen_field a i state in
      for_loop_body c p pure entry o₀ d₁ d' r q (
        for-Rounds a b f covers c p (effect_field a.defs i d) d₁ entry o₀ pure rs
          (In-gen_field a i state d h))
  for-Records i c p pure d d' r state out (in_body (for_iter {d₁ = d₁} {x = x} rs q k)) h =
      let o₀ = record_field a i state record_reads out in
      let entry = gen_field a i state in
      for_loop_iter c r pure entry o₀ d₁ d' x q k (
        for-Rounds a b f covers c (some r) (effect_field a.defs i d) d₁ entry o₀ pure rs
          (In-gen_field a i state d h))
