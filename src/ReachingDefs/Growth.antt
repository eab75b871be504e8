-- ===== src/ReachingDefs/Growth.antt =====
-- What the evaluation of a statement does to the masks recorded before it.
use witcherscript_language.Base.{ℕ, ◌≡◌, true, Option, none, some, List, [], ◌∷◌, arith, unwrap_or}
use witcherscript_language.ReachingDefs.Syntax.{
  Span, within, Stmt, Stmts, Body, Sections, func_block, leaf, return_stmt, break_stmt,
  continue_stmt, if_stmt, while_stmt, do_while_stmt, for_stmt, switch_stmt, switch_no_block, nop,
  unmodelled, stop, then_stmt, absent, present, close, case_label, default_label, section_stmt,
}
use witcherscript_language.ReachingDefs.Masks.{Mask, union, full}
use witcherscript_language.ReachingDefs.Analyzer.{
  Analyzer, Pass, SwitchState, Eval, learn, record_reads, record_all, record_region, record_field,
  eval_if, eval_while, eval_do_while, eval_for, eval_for_loop, eval_stmt, eval_stmts, eval_body,
  eval_sections, switch_start, after_section, enter_case, enter_default, gen_field,
}
use witcherscript_language.ReachingDefs.Semantics.{Held}
use witcherscript_language.ReachingDefs.Holds.{In, In-or_right}
use witcherscript_language.ReachingDefs.Loops.{back}

abbrev pub Grows : List Mask → List Mask → Type 0
Grows [] [] = Unit
Grows [] (m ∷ ms) = ⊥
Grows (m ∷ ms) [] = ⊥
Grows (m ∷ ms) (m' ∷ ms') = ((k : ℕ) → m k ≡ true → m' k ≡ true) × Grows ms ms'

-- Every read that lies in the region has a mask that covers `d`.
abbrev pub Recorded : List Span → List Mask → Span → Held → Type 0
Recorded [] out region d = Unit
Recorded (r ∷ rs) [] region d = Unit
Recorded (r ∷ rs) (m ∷ ms) region d = (within r region ≡ true → In m d) × Recorded rs ms region d

pub Grows-refl : (o : List Mask) → Grows o o
Grows-refl [] = tt
Grows-refl (m ∷ ms) = (λ k h. h, Grows-refl ms)

pub Grows-trans : (o p q : List Mask) → Grows o p → Grows p q → Grows o q
Grows-trans [] [] [] g h = tt
Grows-trans [] [] (x ∷ q) g h = h
Grows-trans [] (x ∷ p) q g h = absurd g
Grows-trans (m ∷ o) [] q g h = absurd g
Grows-trans (m ∷ o) (x ∷ p) [] g h = absurd h
Grows-trans (m ∷ o) (x ∷ p) (y ∷ q) (f, g) (e, h) = (λ k i. e k (f k i), Grows-trans o p q g h)

In-grow : (m m' : Mask) (d : Held) → ((k : ℕ) → m k ≡ true → m' k ≡ true) → In m d → In m' d
In-grow m m' none f h = tt
In-grow m m' (some k) f h = f k h

pub Recorded-grow :
    (rs : List Span) (o p : List Mask) (region : Span) (d : Held)
    → Grows o p
    → Recorded rs o region d
    → Recorded rs p region d
Recorded-grow [] o p region d g h = tt
Recorded-grow (r ∷ rs) [] [] region d g h = tt
Recorded-grow (r ∷ rs) [] (x ∷ p) region d g h = absurd g
Recorded-grow (r ∷ rs) (m ∷ o) [] region d g h = tt
Recorded-grow (r ∷ rs) (m ∷ o) (x ∷ p) region d (f, g) (i, h) =
    (λ w. In-grow m x d f (i w), Recorded-grow rs o p region d g h)

Grows-record_all :
    (rs : List Span) (region : Span) (state : Mask) (o : List Mask)
    → Grows o (record_all rs region state o)
unfolding record_all
Grows-record_all [] region state o = Grows-refl o
Grows-record_all (r ∷ rs) region state [] = tt
Grows-record_all (r ∷ rs) region state (m ∷ ms) =
    (λ k h. ground arith, Grows-record_all rs region state ms)

pub Recorded-record_all :
    (rs : List Span) (region : Span) (state : Mask) (o : List Mask) (d : Held)
    → In state d
    → Recorded rs (record_all rs region state o) region d
unfolding record_all
Recorded-record_all [] region state o d h = tt
Recorded-record_all (r ∷ rs) region state [] d h = tt
Recorded-record_all (r ∷ rs) region state (m ∷ ms) d h =
    (λ w. rw w (In-or_right m state d h), Recorded-record_all rs region state ms d h)

module _ (a : Analyzer) where
  pub Grows-region :
      (region : Span) (state : Mask) (pass : Pass) (o : List Mask)
      → Grows o (record_region a region state pass o)
  unfolding record_region
  Grows-region region state learn o = Grows-refl o
  Grows-region region state record_reads o = Grows-record_all a.reads region state o

  pub Grows-field :
      (region : Option Span) (state : Mask) (pass : Pass) (o : List Mask)
      → Grows o (record_field a region state pass o)
  unfolding record_field
  Grows-field none state pass o = Grows-refl o
  Grows-field (some region) state pass o = Grows-region region state pass o

  pub Recorded-region :
      (region : Span) (state : Mask) (o : List Mask) (d : Held)
      → In state d
      → Recorded a.reads (record_region a region state record_reads o) region d
  unfolding record_region
  Recorded-region region state o d h = Recorded-record_all a.reads region state o d h

abbrev pub GrowsEval : Eval → Type 0
GrowsEval f = (state : Mask) (pass : Pass) (o : List Mask) → Grows o (f state pass o).1

module _ (a : Analyzer) where
  Grows-if :
      (c : Option Span) (f g : Eval) → GrowsEval f → GrowsEval g → GrowsEval (eval_if a c f g)
  unfolding eval_if
  Grows-if c f g hf hg state pass o =
      let o₀ = record_field a c state pass o in
      let o₁ = (f state pass o₀).1 in
      Grows-trans o o₁ (g state pass o₁).1
        (Grows-trans o o₀ o₁ (Grows-field a c state pass o) (hf state pass o₀)) (hg state pass o₁)

  Grows-while : (c : Option Span) (f : Eval) → GrowsEval f → GrowsEval (eval_while a c f)
  unfolding eval_while
  Grows-while c f hf state pass o =
      let o₁ = (f state learn o).1 in
      let header = unwrap_or (union (some state) (back (f state learn o).0)) state in
      let o₂ = record_field a c header pass o₁ in
      Grows-trans o o₁ (f header pass o₂).1 (hf state learn o) (
        Grows-trans o₁ o₂ (f header pass o₂).1 (Grows-field a c header pass o₁) (hf header pass o₂))

  Grows-do_while : (c : Option Span) (f : Eval) → GrowsEval f → GrowsEval (eval_do_while a c f)
  unfolding eval_do_while
  Grows-do_while c f hf state pass o =
      let o₁ = (f state learn o).1 in
      let entry = unwrap_or (union (some state) (back (f state learn o).0)) state in
      let o₂ = (f entry pass o₁).1 in
      let at_cond = unwrap_or (back (f entry pass o₁).0) entry in
      Grows-trans o o₁ (record_field a c at_cond pass o₂) (hf state learn o) (
        Grows-trans o₁ o₂ (record_field a c at_cond pass o₂) (hf entry pass o₁)
          (Grows-field a c at_cond pass o₂))

  Grows-for_loop : (c p : Option Span) (f : Eval) → GrowsEval f → GrowsEval (eval_for_loop a c p f)
  unfolding eval_for_loop
  Grows-for_loop c p f hf entry pass o =
      let o₁ = (f entry learn o).1 in
      let after = unwrap_or (back (f entry learn o).0) entry in
      let header = unwrap_or (union (some entry) (some (gen_field a p after))) entry in
      let o₂ = record_field a c header pass o₁ in
      let o₃ = (f header pass o₂).1 in
      let last = unwrap_or (back (f header pass o₂).0) header in
      let o₄ = record_field a p last pass o₃ in
      Grows-trans o o₁ o₄ (hf entry learn o) (
        Grows-trans o₁ o₂ o₄ (Grows-field a c header pass o₁)
          (Grows-trans o₂ o₃ o₄ (hf header pass o₂) (Grows-field a p last pass o₃)))

  Grows-for : (i c p : Option Span) (f : Eval) → GrowsEval f → GrowsEval (eval_for a i c p f)
  unfolding eval_for
  Grows-for i c p f hf state pass o =
      let o₀ = record_field a i state pass o in
      Grows-trans o o₀ (eval_for_loop a c p f (gen_field a i state) pass o₀).1
        (Grows-field a i state pass o) (Grows-for_loop c p f hf (gen_field a i state) pass o₀)

  mutual
    unfolding eval_stmt

    pub Grows-eval_stmt : (s : Stmt) → GrowsEval (eval_stmt a s)
    Grows-eval_stmt (func_block s) state pass o =
        Grows-eval_stmts s (some state) none none none pass o
    Grows-eval_stmt (leaf k r) state pass o = Grows-region a r state pass o
    Grows-eval_stmt (return_stmt r) state pass o = Grows-region a r state pass o
    Grows-eval_stmt break_stmt state pass o = Grows-refl o
    Grows-eval_stmt continue_stmt state pass o = Grows-refl o
    Grows-eval_stmt (if_stmt c t e) state pass o =
        Grows-if c (eval_body a t) (eval_body a e) (Grows-eval_body t) (Grows-eval_body e) state
          pass o
    Grows-eval_stmt (while_stmt c b) state pass o =
        Grows-while c (eval_body a b) (Grows-eval_body b) state pass o
    Grows-eval_stmt (do_while_stmt c b) state pass o =
        Grows-do_while c (eval_body a b) (Grows-eval_body b) state pass o
    Grows-eval_stmt (for_stmt i c p b) state pass o =
        Grows-for i c p (eval_body a b) (Grows-eval_body b) state pass o
    Grows-eval_stmt (switch_stmt c ss) state pass o =
        let o₀ = record_field a c state pass o in
        Grows-trans o o₀ (eval_sections a ss state switch_start pass o₀).1
          (Grows-field a c state pass o) (Grows-eval_sections ss state switch_start pass o₀)
    Grows-eval_stmt (switch_no_block c) state pass o = Grows-field a c state pass o
    Grows-eval_stmt nop state pass o = Grows-refl o
    Grows-eval_stmt (unmodelled r) state pass o = Grows-region a r full pass o

    pub Grows-eval_stmts :
        (s : Stmts) (n b c r : Option Mask) (pass : Pass) (o : List Mask)
        → Grows o
            (eval_stmts a s
              (record { normal = n; breaks = b; continues = c; returns = r })
              pass
              o).1
    Grows-eval_stmts stop n b c r pass o = Grows-refl o
    Grows-eval_stmts (then_stmt s rest) none b c r pass o = Grows-refl o
    Grows-eval_stmts (then_stmt s rest) (some cur) b c r pass o =
        let (next, o') = eval_stmt a s cur pass o in
        Grows-trans o o' _ (Grows-eval_stmt s cur pass o) (
          Grows-eval_stmts rest next.normal (union b next.breaks) (union c next.continues)
            (union r next.returns) pass o')

    pub Grows-eval_body : (b : Body) → GrowsEval (eval_body a b)
    Grows-eval_body absent state pass o = Grows-refl o
    Grows-eval_body (present s) state pass o = Grows-eval_stmt s state pass o

    pub Grows-eval_sections :
        (ss : Sections) (entry : Mask) (st : SwitchState) (pass : Pass) (o : List Mask)
        → Grows o (eval_sections a ss entry st pass o).1
    Grows-eval_sections close entry st pass o = Grows-refl o
    Grows-eval_sections (case_label v rest) entry st pass o =
        let o' = record_field a v entry pass o in
        Grows-trans o o' _ (Grows-field a v entry pass o)
          (Grows-eval_sections rest entry (enter_case entry st) pass o')
    Grows-eval_sections (default_label rest) entry st pass o =
        Grows-eval_sections rest entry (enter_default entry st) pass o
    Grows-eval_sections (section_stmt s rest) entry st pass o =
        let (flow, o') = eval_stmt a s (unwrap_or st.cur entry) pass o in
        Grows-trans o o' _ (Grows-eval_stmt s (unwrap_or st.cur entry) pass o)
          (Grows-eval_sections rest entry (after_section st flow) pass o')
