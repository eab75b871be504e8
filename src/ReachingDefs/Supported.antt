-- ===== src/ReachingDefs/Supported.antt =====
-- The bodies that the theorems on runs are about: no definition stands in a condition, a switch head
-- or an unmodelled statement, and no `continue` leaves the body of a `do` loop.
use witcherscript_language.Base.{◌≡◌, refl, Bool, true, false, ◌||◌, some, List, arith}
use witcherscript_language.ReachingDefs.Syntax.{
  Stmt, Stmts, Body, Sections, func_block, continue_stmt, if_stmt, while_stmt, do_while_stmt,
  for_stmt, switch_stmt, switch_no_block, unmodelled, stop, then_stmt, absent, present, close,
  case_label, default_label, section_stmt,
}
use witcherscript_language.ReachingDefs.Analyzer.{LocalDefinition}
use witcherscript_language.ReachingDefs.Holds.{Pure}
use witcherscript_language.ReachingDefs.Semantics.{
  Held, Exit, Run, RunStmts, RunBody, RunSections, Enter, continues, block, continue_runs, if_then,
  if_else, switch_enters, stops, goes_on, leaves, no_body, the_body, closes, past_case,
  past_default, section_goes_on, section_leaves, at_case, at_default, beyond_case, beyond_default,
  beyond_section,
}

abbrev mutual
  -- the statement holds a `continue` of the loop around it
  pub may_continue : Stmt → Bool
  may_continue (func_block s) = stmts_may_continue s
  may_continue continue_stmt = true
  may_continue (if_stmt c t e) = body_may_continue t || body_may_continue e
  may_continue (switch_stmt c ss) = sections_may_continue ss
  may_continue _ = false

  pub stmts_may_continue : Stmts → Bool
  stmts_may_continue stop = false
  stmts_may_continue (then_stmt s rest) = may_continue s || stmts_may_continue rest

  pub body_may_continue : Body → Bool
  body_may_continue absent = false
  body_may_continue (present s) = may_continue s

  pub sections_may_continue : Sections → Bool
  sections_may_continue close = false
  sections_may_continue (case_label v rest) = sections_may_continue rest
  sections_may_continue (default_label rest) = sections_may_continue rest
  sections_may_continue (section_stmt s rest) = may_continue s || sections_may_continue rest

module _ (defs : List LocalDefinition) where
  abbrev mutual
    pub Supported : Stmt → Type 0
    Supported (func_block s) = StmtsSupported s
    Supported (if_stmt c t e) = Pure defs c × BodySupported t × BodySupported e
    Supported (while_stmt c b) = Pure defs c × BodySupported b
    Supported (do_while_stmt c b) = Pure defs c × BodySupported b × (body_may_continue b ≡ false)
    Supported (for_stmt i c p b) = Pure defs c × BodySupported b
    Supported (switch_stmt c ss) = Pure defs c × SectionsSupported ss
    Supported (switch_no_block c) = Pure defs c
    Supported (unmodelled r) = Pure defs (some r)
    Supported _ = Unit

    pub StmtsSupported : Stmts → Type 0
    StmtsSupported stop = Unit
    StmtsSupported (then_stmt s rest) = Supported s × StmtsSupported rest

    pub BodySupported : Body → Type 0
    BodySupported absent = Unit
    BodySupported (present s) = Supported s

    pub SectionsSupported : Sections → Type 0
    SectionsSupported close = Unit
    SectionsSupported (case_label v rest) = SectionsSupported rest
    SectionsSupported (default_label rest) = SectionsSupported rest
    SectionsSupported (section_stmt s rest) = Supported s × SectionsSupported rest

  mutual
    Run-may_continue :
        {s : Stmt} {d d' : Held} {x : Exit}
        → Run defs s d x d'
        → x ≡ continues
        → may_continue s ≡ true
    Run-may_continue (block r) e = RunStmts-may_continue r e
    Run-may_continue continue_runs e = refl
    Run-may_continue (if_then r) e = ground (arith, RunBody-may_continue r e)
    Run-may_continue (if_else r) e = ground (arith, RunBody-may_continue r e)
    Run-may_continue (switch_enters {x = continues} r) e = Enter-may_continue r refl
    Run-may_continue (switch_enters {x = _} r) e = cc
    Run-may_continue _ e = cc

    RunStmts-may_continue :
        {s : Stmts} {d d' : Held} {x : Exit}
        → RunStmts defs s d x d'
        → x ≡ continues
        → stmts_may_continue s ≡ true
    RunStmts-may_continue stops e = cc
    RunStmts-may_continue (goes_on r q) e = ground (arith, RunStmts-may_continue q e)
    RunStmts-may_continue (leaves r n) e = ground (arith, Run-may_continue r e)

    pub RunBody-may_continue :
        {b : Body} {d d' : Held} {x : Exit}
        → RunBody defs b d x d'
        → x ≡ continues
        → body_may_continue b ≡ true
    RunBody-may_continue no_body e = cc
    RunBody-may_continue (the_body r) e = Run-may_continue r e

    RunSections-may_continue :
        {s : Sections} {d d' : Held} {x : Exit}
        → RunSections defs s d x d'
        → x ≡ continues
        → sections_may_continue s ≡ true
    RunSections-may_continue closes e = cc
    RunSections-may_continue (past_case r) e = RunSections-may_continue r e
    RunSections-may_continue (past_default r) e = RunSections-may_continue r e
    RunSections-may_continue (section_goes_on r q) e = ground (arith, RunSections-may_continue q e)
    RunSections-may_continue (section_leaves r n) e = ground (arith, Run-may_continue r e)

    Enter-may_continue :
        {s : Sections} {d d' : Held} {x : Exit}
        → Enter defs s d x d'
        → x ≡ continues
        → sections_may_continue s ≡ true
    Enter-may_continue (at_case r) e = RunSections-may_continue r e
    Enter-may_continue (at_default r) e = RunSections-may_continue r e
    Enter-may_continue (beyond_case r) e = Enter-may_continue r e
    Enter-may_continue (beyond_default r) e = Enter-may_continue r e
    Enter-may_continue (beyond_section r) e = ground (arith, Enter-may_continue r e)
