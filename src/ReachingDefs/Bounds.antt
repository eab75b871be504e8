-- ===== src/ReachingDefs/Bounds.antt =====
-- The indices of the definitions that runs go through.
use witcherscript_language.Base.{
  sym, subst, ℕ, ◌+◌, ◌<◌, ◌≤◌, Option, none, some, List, [], ◌∷◌, length, arith, if◌then◌else◌,
}
use witcherscript_language.ReachingDefs.Syntax.{Span, within, Stmt, Stmts, Body, Sections}
use witcherscript_language.ReachingDefs.Analyzer.{LocalDefinition, later_of, latest_from, latest_in}
use witcherscript_language.ReachingDefs.Semantics.{
  Held, Exit, Run, RunStmts, RunBody, Rounds, RunSections, Enter, effect, effect_field, block,
  leaf_runs, return_runs, break_runs, continue_runs, if_then, if_else, while_ends, while_breaks,
  while_returns, do_ends, do_breaks, do_returns, for_ends, for_breaks, for_returns, switch_enters,
  switch_skips, switch_empty, nop_runs, unmodelled_runs, stops, goes_on, leaves, no_body, the_body,
  no_round, round, closes, past_case, past_default, section_goes_on, section_leaves, at_case,
  at_default, beyond_case, beyond_default, beyond_section,
}
use witcherscript_language.ReachingDefs.Order.{effect-latest_in}
use witcherscript_language.ReachingDefs.Reads.{
  Reads, ReadsStmts, ReadsBody, ReadsSections, ReadsEnter, in_block, in_leaf, in_return, if_cond,
  in_then, in_else, while_cond, while_body, do_body, do_cond, for_init, for_cond, for_body,
  for_iter, switch_head, in_switch, empty_head, in_unmodelled, in_first, in_rest, in_body,
  behind_case, behind_default, in_section, in_later_section, case_value, from_case, from_default,
  not_case, not_default, not_section,
}

abbrev pub Below : ℕ → Held → Type 0
Below n none = Unit
Below n (some k) = k < n

abbrev BestBelow : ℕ → Option (ℕ × ℕ) → Type 0
BestBelow n none = Unit
BestBelow n (some p) = p.0 < n

latest_from-lt :
    (ds : List LocalDefinition) (i : ℕ) (r : Span) (best : Option (ℕ × ℕ)) (n : ℕ)
    → i + length ds ≤ n
    → BestBelow n best
    → BestBelow n (latest_from ds i r best)
unfolding latest_from
latest_from-lt [] i r best n h b = b
latest_from-lt (d ∷ ds) i r best n h b =
    latest_from-lt ds (i + 1) r (if within d.owner r then later_of best i d.owner.start else best) n
      (omega arith) (improved best b)
  where
    improved :
        (best : Option (ℕ × ℕ))
        → BestBelow n best
        → BestBelow n (if within d.owner r then later_of best i d.owner.start else best)
    improved none b = ground arith
    improved (some (j, k)) b = ground arith

module _ (defs : List LocalDefinition) where
  effect-Below :
      (r : Span) (d : Held) → Below (length defs) d → Below (length defs) (effect defs r d)
  unfolding latest_in
  effect-Below r d h = subst (Below (length defs)) (sym (effect-latest_in defs r d)) (
      picked (latest_from defs 0 r none)
        (latest_from-lt defs 0 r none (length defs) (omega arith) tt))
    where
      picked :
          (best : Option (ℕ × ℕ))
          → BestBelow (length defs) best
          → Below
              (length defs)
              (elim (elim best as (λ _. Option ℕ) [ none ↦ none | some (i, _) ↦ some i ])
                as (λ _. Held) [ some i ↦ some i | none ↦ d ])
      picked none b = h
      picked (some (i, s)) b = b

  field-Below :
      (r : Option Span) (d : Held)
      → Below (length defs) d
      → Below (length defs) (effect_field defs r d)
  unfolding effect_field
  field-Below none d h = h
  field-Below (some r) d h = effect-Below r d h

  mutual
    Run-Below :
        {s : Stmt} {d d' : Held} {x : Exit}
        → Run defs s d x d'
        → Below (length defs) d
        → Below (length defs) d'
    Run-Below (block r) h = RunStmts-Below r h
    Run-Below (leaf_runs {r = r} {d = d}) h = effect-Below r d h
    Run-Below (return_runs {r = r} {d = d}) h = effect-Below r d h
    Run-Below break_runs h = h
    Run-Below continue_runs h = h
    Run-Below (if_then {c = c} {d = d} r) h = RunBody-Below r (field-Below c d h)
    Run-Below (if_else {c = c} {d = d} r) h = RunBody-Below r (field-Below c d h)
    Run-Below (while_ends {c = c} {d₁ = e} rs) h = field-Below c e (Rounds-Below rs h)
    Run-Below (while_breaks {c = c} {d₁ = e} rs r) h =
        RunBody-Below r (field-Below c e (Rounds-Below rs h))
    Run-Below (while_returns {c = c} {d₁ = e} rs r) h =
        RunBody-Below r (field-Below c e (Rounds-Below rs h))
    Run-Below (do_ends {c = c} {d₂ = e} rs r k) h =
        field-Below c e (RunBody-Below r (Rounds-Below rs h))
    Run-Below (do_breaks rs r) h = RunBody-Below r (Rounds-Below rs h)
    Run-Below (do_returns rs r) h = RunBody-Below r (Rounds-Below rs h)
    Run-Below (for_ends {i = i} {c = c} {d = d} {d₁ = e} rs) h =
        field-Below c e (Rounds-Below rs (field-Below i d h))
    Run-Below (for_breaks {i = i} {c = c} {d = d} {d₁ = e} rs r) h =
        RunBody-Below r (field-Below c e (Rounds-Below rs (field-Below i d h)))
    Run-Below (for_returns {i = i} {c = c} {d = d} {d₁ = e} rs r) h =
        RunBody-Below r (field-Below c e (Rounds-Below rs (field-Below i d h)))
    Run-Below (switch_enters {c = c} {d = d} r) h = Enter-Below r (field-Below c d h)
    Run-Below (switch_skips {c = c} {d = d} n) h = field-Below c d h
    Run-Below (switch_empty {c = c} {d = d}) h = field-Below c d h
    Run-Below nop_runs h = h
    Run-Below (unmodelled_runs {r = r} {d = d}) h = effect-Below r d h

    RunStmts-Below :
        {s : Stmts} {d d' : Held} {x : Exit}
        → RunStmts defs s d x d'
        → Below (length defs) d
        → Below (length defs) d'
    RunStmts-Below stops h = h
    RunStmts-Below (goes_on r q) h = RunStmts-Below q (Run-Below r h)
    RunStmts-Below (leaves r n) h = Run-Below r h

    RunBody-Below :
        {b : Body} {d d' : Held} {x : Exit}
        → RunBody defs b d x d'
        → Below (length defs) d
        → Below (length defs) d'
    RunBody-Below no_body h = h
    RunBody-Below (the_body r) h = Run-Below r h

    Rounds-Below :
        {c p : Option Span} {b : Body} {d d' : Held}
        → Rounds defs c p b d d'
        → Below (length defs) d
        → Below (length defs) d'
    Rounds-Below no_round h = h
    Rounds-Below (round {pre = c} {post = p} {d₁ = e} {d₂ = g} rs r k) h =
        field-Below p g (RunBody-Below r (field-Below c e (Rounds-Below rs h)))

    RunSections-Below :
        {s : Sections} {d d' : Held} {x : Exit}
        → RunSections defs s d x d'
        → Below (length defs) d
        → Below (length defs) d'
    RunSections-Below closes h = h
    RunSections-Below (past_case r) h = RunSections-Below r h
    RunSections-Below (past_default r) h = RunSections-Below r h
    RunSections-Below (section_goes_on r q) h = RunSections-Below q (Run-Below r h)
    RunSections-Below (section_leaves r n) h = Run-Below r h

    Enter-Below :
        {s : Sections} {d d' : Held} {x : Exit}
        → Enter defs s d x d'
        → Below (length defs) d
        → Below (length defs) d'
    Enter-Below (at_case r) h = RunSections-Below r h
    Enter-Below (at_default r) h = RunSections-Below r h
    Enter-Below (beyond_case r) h = Enter-Below r h
    Enter-Below (beyond_default r) h = Enter-Below r h
    Enter-Below (beyond_section r) h = Enter-Below r h

  mutual
    Reads-Below :
        {s : Stmt} {d d' : Held} {r : Span}
        → Reads defs s d r d'
        → Below (length defs) d
        → Below (length defs) d'
    Reads-Below (in_block q) h = ReadsStmts-Below q h
    Reads-Below in_leaf h = h
    Reads-Below in_return h = h
    Reads-Below if_cond h = h
    Reads-Below (in_then {c = c} {d = d} q) h = ReadsBody-Below q (field-Below c d h)
    Reads-Below (in_else {c = c} {d = d} q) h = ReadsBody-Below q (field-Below c d h)
    Reads-Below (while_cond rs) h = Rounds-Below rs h
    Reads-Below (while_body {c = c} {d₁ = e} rs q) h =
        ReadsBody-Below q (field-Below c e (Rounds-Below rs h))
    Reads-Below (do_body rs q) h = ReadsBody-Below q (Rounds-Below rs h)
    Reads-Below (do_cond rs r k) h = RunBody-Below r (Rounds-Below rs h)
    Reads-Below for_init h = h
    Reads-Below (for_cond {i = i} {d = d} rs) h = Rounds-Below rs (field-Below i d h)
    Reads-Below (for_body {i = i} {c = c} {d = d} {d₁ = e} rs q) h =
        ReadsBody-Below q (field-Below c e (Rounds-Below rs (field-Below i d h)))
    Reads-Below (for_iter {i = i} {c = c} {d = d} {d₁ = e} rs r k) h =
        RunBody-Below r (field-Below c e (Rounds-Below rs (field-Below i d h)))
    Reads-Below switch_head h = h
    Reads-Below (in_switch {c = c} {d = d} q) h = ReadsEnter-Below q (field-Below c d h)
    Reads-Below empty_head h = h
    Reads-Below (in_unmodelled k) h = k

    pub ReadsStmts-Below :
        {s : Stmts} {d d' : Held} {r : Span}
        → ReadsStmts defs s d r d'
        → Below (length defs) d
        → Below (length defs) d'
    ReadsStmts-Below (in_first q) h = Reads-Below q h
    ReadsStmts-Below (in_rest r q) h = ReadsStmts-Below q (Run-Below r h)

    ReadsBody-Below :
        {b : Body} {d d' : Held} {r : Span}
        → ReadsBody defs b d r d'
        → Below (length defs) d
        → Below (length defs) d'
    ReadsBody-Below (in_body q) h = Reads-Below q h

    ReadsSections-Below :
        {s : Sections} {d d' : Held} {r : Span}
        → ReadsSections defs s d r d'
        → Below (length defs) d
        → Below (length defs) d'
    ReadsSections-Below (behind_case q) h = ReadsSections-Below q h
    ReadsSections-Below (behind_default q) h = ReadsSections-Below q h
    ReadsSections-Below (in_section q) h = Reads-Below q h
    ReadsSections-Below (in_later_section r q) h = ReadsSections-Below q (Run-Below r h)

    ReadsEnter-Below :
        {s : Sections} {d d' : Held} {r : Span}
        → ReadsEnter defs s d r d'
        → Below (length defs) d
        → Below (length defs) d'
    ReadsEnter-Below case_value h = h
    ReadsEnter-Below (from_case q) h = ReadsSections-Below q h
    ReadsEnter-Below (from_default q) h = ReadsSections-Below q h
    ReadsEnter-Below (not_case q) h = ReadsEnter-Below q h
    ReadsEnter-Below (not_default q) h = ReadsEnter-Below q h
    ReadsEnter-Below (not_section q) h = ReadsEnter-Below q h
