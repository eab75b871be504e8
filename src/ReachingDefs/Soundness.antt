-- ===== src/ReachingDefs/Soundness.antt =====
-- The flows that `eval_stmt` returns, against the runs of a supported statement.
use witcherscript_language.Base.{sym, refl, subst, Option, none, some, List, unwrap_or}
use witcherscript_language.ReachingDefs.Syntax.{
  Span, Stmt, Stmts, Body, Sections, func_block, leaf, return_stmt, break_stmt, continue_stmt,
  if_stmt, while_stmt, do_while_stmt, for_stmt, switch_stmt, switch_no_block, nop, unmodelled, stop,
  then_stmt, absent, present, close, case_label, default_label, section_stmt,
}
use witcherscript_language.ReachingDefs.Masks.{Mask, union}
use witcherscript_language.ReachingDefs.Analyzer.{
  Analyzer, Pass, Flow, SwitchState, Eval, eval_stmt, eval_stmts, eval_body, eval_sections,
  join_flow, after_section, enter_case, enter_default, record_field, switch_start, eval_if,
  eval_leaf,
}
use witcherscript_language.ReachingDefs.Semantics.{
  Held, Exit, RunStmts, RunSections, Enter, falls, breaks, continues, returns, effect_field, block,
  leaf_runs, return_runs, break_runs, continue_runs, if_then, if_else, switch_enters, switch_skips,
  switch_empty, nop_runs, unmodelled_runs, stops, goes_on, leaves, no_body, the_body, closes,
  past_case, past_default, section_goes_on, section_leaves, at_case, at_default, beyond_case,
  beyond_default, beyond_section,
}
use witcherscript_language.ReachingDefs.Holds.{
  In, InFlow, exit_of, Pure, effect_field-Pure, In-unwrap, InFlow-union_left, InFlow-union_right,
  In-gen,
}
use witcherscript_language.ReachingDefs.Supported.{
  Supported, StmtsSupported, BodySupported, SectionsSupported,
}
use witcherscript_language.ReachingDefs.Loops.{Covers, while_covers, do_while_covers, for_covers}
use witcherscript_language.ReachingDefs.Sequences.{
  flow_of, switch_exit, exit-join_new, exit-after_section_new, switch_flow-leaves,
  switch_flow-skips, exit-eval_stmts, exit-eval_sections, has_default-eval_sections,
}

module _ (a : Analyzer) where
  -- the state behind a condition that writes nothing
  pub In-behind :
      (c : Option Span) (m : Mask) (d : Held)
      → Pure a.defs c
      → In m d
      → In m (effect_field a.defs c d)
  In-behind c m d pure h = subst (In m) (sym (effect_field-Pure a.defs c d pure)) h

  exit-union :
      (x : Exit) (f g : Flow) (d : Held)
      → InFlow (union (exit_of x f) (exit_of x g)) d
      → InFlow
          (exit_of x (
            flow_of
              (union f.normal g.normal)
              (union f.breaks g.breaks)
              (union f.continues g.continues)
              (union f.returns g.returns)))
          d
  exit-union falls f g d h = h
  exit-union breaks f g d h = h
  exit-union continues f g d h = h
  exit-union returns f g d h = h

  if_Covers :
      (c : Option Span) (t e : Body) (f g : Eval)
      → Covers a t f
      → Covers a e g
      → Pure a.defs c
      → Covers a (present (if_stmt c t e)) (eval_if a c f g)
  unfolding eval_if
  if_Covers c t e f g ft ge pure d d' x state pass out (the_body (if_then r)) h =
      let out₀ = record_field a c state pass out in
      let out₁ = (f state pass out₀).1 in
      exit-union x (f state pass out₀).0 (g state pass out₁).0 d' (
        InFlow-union_left _ (exit_of x (g state pass out₁).0) d'
          (ft (effect_field a.defs c d) d' x state pass out₀ r (In-behind c state d pure h)))
  if_Covers c t e f g ft ge pure d d' x state pass out (the_body (if_else r)) h =
      let out₀ = record_field a c state pass out in
      let out₁ = (f state pass out₀).1 in
      exit-union x (f state pass out₀).0 (g state pass out₁).0 d' (
        InFlow-union_right (exit_of x (f state pass out₀).0) _ d'
          (ge (effect_field a.defs c d) d' x state pass out₁ r (In-behind c state d pure h)))

  mutual
    unfolding eval_stmt eval_leaf effect_field enter_case enter_default join_flow

    pub eval_stmt-Covers : (s : Stmt) → Supported a.defs s → Covers a (present s) (eval_stmt a s)
    eval_stmt-Covers (func_block s) ok d d' x state pass out (the_body (block r)) h =
        eval_stmts_covers s ok d d' x (some state) none none none pass out r h
    eval_stmt-Covers (leaf k r) ok d d' x state pass out (the_body leaf_runs) h =
        In-gen a r state d h
    eval_stmt-Covers (return_stmt r) ok d d' x state pass out (the_body return_runs) h =
        In-gen a r state d h
    eval_stmt-Covers break_stmt ok d d' x state pass out (the_body break_runs) h = h
    eval_stmt-Covers continue_stmt ok d d' x state pass out (the_body continue_runs) h = h
    eval_stmt-Covers (if_stmt c t e) (pure, ot, oe) d d' x state pass out r h =
        if_Covers c t e (eval_body a t) (eval_body a e) (eval_body-Covers t ot)
          (eval_body-Covers e oe) pure d d' x state pass out r h
    eval_stmt-Covers (while_stmt c b) (pure, ob) d d' x state pass out (the_body r) h =
        while_covers a b (eval_body a b) (eval_body-Covers b ob) c d d' x state pass out pure r h
    eval_stmt-Covers (do_while_stmt c b) (pure, ob, never) d d' x state pass out (the_body r) h =
        do_while_covers a b (eval_body a b) (eval_body-Covers b ob) c d d' x state pass out pure
          never r h
    eval_stmt-Covers (for_stmt i c p b) (pure, ob) d d' x state pass out (the_body r) h =
        for_covers a b (eval_body a b) (eval_body-Covers b ob) i c p d d' x state pass out pure r h
    eval_stmt-Covers (switch_stmt c ss) (pure, os) d d' x state pass out
          (the_body (switch_enters {x = y} r)) h =
        let out₀ = record_field a c state pass out in
        switch_flow-leaves y state (eval_sections a ss state switch_start pass out₀).0 d' (
          Enter-covers ss os (effect_field a.defs c d) d' y state switch_start pass out₀ r
            (In-behind c state d pure h))
    eval_stmt-Covers (switch_stmt c ss) (pure, os) d d' x state pass out (the_body (switch_skips n))
          h =
        let out₀ = record_field a c state pass out in
        switch_flow-skips state (eval_sections a ss state switch_start pass out₀).0
          (effect_field a.defs c d)
          (has_default-eval_sections a ss state switch_start pass out₀ n refl)
          (In-behind c state d pure h)
    eval_stmt-Covers (switch_no_block c) pure d d' x state pass out (the_body switch_empty) h =
        In-behind c state d pure h
    eval_stmt-Covers nop ok d d' x state pass out (the_body nop_runs) h = h
    eval_stmt-Covers (unmodelled r) pure d d' x state pass out (the_body unmodelled_runs) h =
        In-behind (some r) state d pure h

    eval_stmts_covers :
        (ss : Stmts)
        → StmtsSupported a.defs ss
        → (d d' : Held) (x : Exit) (n b c r : Option Mask) (pass : Pass) (out : List Mask)
        → RunStmts a.defs ss d x d'
        → InFlow n d
        → InFlow (exit_of x (eval_stmts a ss (flow_of n b c r) pass out).0) d'
    eval_stmts_covers stop ok d d' x n b c r pass out stops h = h
    eval_stmts_covers (then_stmt s rest) ok d d' x none b c r pass out run h = absurd h
    eval_stmts_covers (then_stmt s rest) (os, or) d d' x (some cur) b c r pass out
          (goes_on {d₁ = d₁} q run) h =
        let (next, out') = eval_stmt a s cur pass out in
        eval_stmts_covers rest or d₁ d' x next.normal (union b next.breaks) (union c next.continues)
          (union r next.returns) pass out' run
          (eval_stmt-Covers s os d d₁ falls cur pass out (the_body q) h)
    eval_stmts_covers (then_stmt s rest) (os, or) d d' x (some cur) b c r pass out (leaves q ne) h =
        let (next, out') = eval_stmt a s cur pass out in
        exit-eval_stmts a rest x next.normal (union b next.breaks) (union c next.continues)
          (union r next.returns) pass out' d' ne
          (exit-join_new x (flow_of (some cur) b c r) next d'
            (eval_stmt-Covers s os d d' x cur pass out (the_body q) h))

    pub eval_body-Covers : (b : Body) → BodySupported a.defs b → Covers a b (eval_body a b)
    eval_body-Covers absent ok d d' x state pass out no_body h = h
    eval_body-Covers (present s) ok d d' x state pass out r h =
        eval_stmt-Covers s ok d d' x state pass out r h

    sections_covers :
        (ss : Sections)
        → SectionsSupported a.defs ss
        → (d d' : Held) (x : Exit) (entry : Mask) (st : SwitchState) (pass : Pass) (out : List Mask)
        → RunSections a.defs ss d x d'
        → InFlow st.cur d
        → InFlow (switch_exit x (eval_sections a ss entry st pass out).0) d'
    sections_covers close ok d d' x entry st pass out closes h = h
    sections_covers (case_label v rest) ok d d' x entry st pass out (past_case r) h =
        sections_covers rest ok d d' x entry (enter_case entry st) pass
          (record_field a v entry pass out) r (InFlow-union_left st.cur (some entry) d h)
    sections_covers (default_label rest) ok d d' x entry st pass out (past_default r) h =
        sections_covers rest ok d d' x entry (enter_default entry st) pass out r
          (InFlow-union_left st.cur (some entry) d h)
    sections_covers (section_stmt s rest) (os, or) d d' x entry st pass out
          (section_goes_on {d₁ = d₁} q r) h =
        let (flow, out') = eval_stmt a s (unwrap_or st.cur entry) pass out in
        sections_covers rest or d₁ d' x entry (after_section st flow) pass out' r (
          exit-after_section_new falls st flow d₁ (
            eval_stmt-Covers s os d d₁ falls (unwrap_or st.cur entry) pass out (the_body q)
              (In-unwrap st.cur entry d h)))
    sections_covers (section_stmt s rest) (os, or) d d' x entry st pass out (section_leaves q ne)
          h =
        let (flow, out') = eval_stmt a s (unwrap_or st.cur entry) pass out in
        exit-eval_sections a rest x entry (after_section st flow) pass out' d' ne (
          exit-after_section_new x st flow d' (
            eval_stmt-Covers s os d d' x (unwrap_or st.cur entry) pass out (the_body q)
              (In-unwrap st.cur entry d h)))

    Enter-covers :
        (ss : Sections)
        → SectionsSupported a.defs ss
        → (d d' : Held) (x : Exit) (entry : Mask) (st : SwitchState) (pass : Pass) (out : List Mask)
        → Enter a.defs ss d x d'
        → In entry d
        → InFlow (switch_exit x (eval_sections a ss entry st pass out).0) d'
    Enter-covers close ok d d' x entry st pass out r h = elim r [ ]
    Enter-covers (case_label v rest) ok d d' x entry st pass out (at_case r) h =
        sections_covers rest ok d d' x entry (enter_case entry st) pass
          (record_field a v entry pass out) r (InFlow-union_right st.cur (some entry) d h)
    Enter-covers (default_label rest) ok d d' x entry st pass out (at_default r) h =
        sections_covers rest ok d d' x entry (enter_default entry st) pass out r
          (InFlow-union_right st.cur (some entry) d h)
    Enter-covers (case_label v rest) ok d d' x entry st pass out (beyond_case r) h =
        Enter-covers rest ok d d' x entry (enter_case entry st) pass
          (record_field a v entry pass out) r h
    Enter-covers (default_label rest) ok d d' x entry st pass out (beyond_default r) h =
        Enter-covers rest ok d d' x entry (enter_default entry st) pass out r h
    Enter-covers (section_stmt s rest) (os, or) d d' x entry st pass out (beyond_section r) h =
        let (flow, out') = eval_stmt a s (unwrap_or st.cur entry) pass out in
        Enter-covers rest or d d' x entry (after_section st flow) pass out' r h
