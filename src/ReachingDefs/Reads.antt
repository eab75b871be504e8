-- ===== src/ReachingDefs/Reads.antt =====
-- Where a run evaluates what may read: `Reads s d r d'` says that a run of `s` that starts with the
-- variable at `d` can begin to evaluate the region `r` with the variable at `d'`.
use witcherscript_language.Base.{ℕ, ◌<◌, Option, none, some, List, length}
use witcherscript_language.ReachingDefs.Syntax.{
  Span, Stmt, Stmts, Body, Sections, Leaf, func_block, leaf, return_stmt, if_stmt, while_stmt,
  do_while_stmt, for_stmt, switch_stmt, switch_no_block, unmodelled, then_stmt, present, case_label,
  default_label, section_stmt,
}
use witcherscript_language.ReachingDefs.Analyzer.{LocalDefinition}
use witcherscript_language.ReachingDefs.Semantics.{
  Held, Exit, Run, RunBody, Rounds, Resumes, effect_field, falls,
}

module _ (defs : List LocalDefinition) where
  mutual
    pub data Reads : Stmt → Held → Span → Held → Type 0 where
      in_block :
          {s : Stmts} {d d' : Held} {r : Span} → ReadsStmts s d r d' → Reads (func_block s) d r d'
      in_leaf : {k : Leaf} {r : Span} {d : Held} → Reads (leaf k r) d r d
      in_return : {r : Span} {d : Held} → Reads (return_stmt r) d r d
      if_cond : {c : Span} {t e : Body} {d : Held} → Reads (if_stmt (some c) t e) d c d
      in_then :
          {c : Option Span} {t e : Body} {d d' : Held} {r : Span}
          → ReadsBody t (effect_field defs c d) r d'
          → Reads (if_stmt c t e) d r d'
      in_else :
          {c : Option Span} {t e : Body} {d d' : Held} {r : Span}
          → ReadsBody e (effect_field defs c d) r d'
          → Reads (if_stmt c t e) d r d'
      while_cond :
          {c : Span} {b : Body} {d d₁ : Held}
          → Rounds defs (some c) none b d d₁
          → Reads (while_stmt (some c) b) d c d₁
      while_body :
          {c : Option Span} {b : Body} {d d₁ d' : Held} {r : Span}
          → Rounds defs c none b d d₁
          → ReadsBody b (effect_field defs c d₁) r d'
          → Reads (while_stmt c b) d r d'
      do_body :
          {c : Option Span} {b : Body} {d d₁ d' : Held} {r : Span}
          → Rounds defs none c b d d₁
          → ReadsBody b d₁ r d'
          → Reads (do_while_stmt c b) d r d'
      do_cond :
          {c : Span} {b : Body} {d d₁ d₂ : Held} {x : Exit}
          → Rounds defs none (some c) b d d₁
          → RunBody defs b d₁ x d₂
          → Resumes x
          → Reads (do_while_stmt (some c) b) d c d₂
      for_init :
          {i : Span} {c p : Option Span} {b : Body} {d : Held}
          → Reads (for_stmt (some i) c p b) d i d
      for_cond :
          {i : Option Span} {c : Span} {p : Option Span} {b : Body} {d d₁ : Held}
          → Rounds defs (some c) p b (effect_field defs i d) d₁
          → Reads (for_stmt i (some c) p b) d c d₁
      for_body :
          {i c p : Option Span} {b : Body} {d d₁ d' : Held} {r : Span}
          → Rounds defs c p b (effect_field defs i d) d₁
          → ReadsBody b (effect_field defs c d₁) r d'
          → Reads (for_stmt i c p b) d r d'
      for_iter :
          {i c : Option Span} {p : Span} {b : Body} {d d₁ d₂ : Held} {x : Exit}
          → Rounds defs c (some p) b (effect_field defs i d) d₁
          → RunBody defs b (effect_field defs c d₁) x d₂
          → Resumes x
          → Reads (for_stmt i c (some p) b) d p d₂
      switch_head : {c : Span} {ss : Sections} {d : Held} → Reads (switch_stmt (some c) ss) d c d
      in_switch :
          {c : Option Span} {ss : Sections} {d d' : Held} {r : Span}
          → ReadsEnter ss (effect_field defs c d) r d'
          → Reads (switch_stmt c ss) d r d'
      empty_head : {c : Span} {d : Held} → Reads (switch_no_block (some c)) d c d
      -- nothing is known of what an unmodelled statement does before it reads
      in_unmodelled :
          {r : Span} {d : Held} {k : ℕ} → k < length defs → Reads (unmodelled r) d r (some k)

    pub data ReadsStmts : Stmts → Held → Span → Held → Type 0 where
      in_first :
          {s : Stmt} {ss : Stmts} {d d' : Held} {r : Span}
          → Reads s d r d'
          → ReadsStmts (then_stmt s ss) d r d'
      in_rest :
          {s : Stmt} {ss : Stmts} {d d₁ d' : Held} {r : Span}
          → Run defs s d falls d₁
          → ReadsStmts ss d₁ r d'
          → ReadsStmts (then_stmt s ss) d r d'

    pub data ReadsBody : Body → Held → Span → Held → Type 0 where
      in_body : {s : Stmt} {d d' : Held} {r : Span} → Reads s d r d' → ReadsBody (present s) d r d'

    pub data ReadsSections : Sections → Held → Span → Held → Type 0 where
      behind_case :
          {v : Option Span} {ss : Sections} {d d' : Held} {r : Span}
          → ReadsSections ss d r d'
          → ReadsSections (case_label v ss) d r d'
      behind_default :
          {ss : Sections} {d d' : Held} {r : Span}
          → ReadsSections ss d r d'
          → ReadsSections (default_label ss) d r d'
      in_section :
          {s : Stmt} {ss : Sections} {d d' : Held} {r : Span}
          → Reads s d r d'
          → ReadsSections (section_stmt s ss) d r d'
      in_later_section :
          {s : Stmt} {ss : Sections} {d d₁ d' : Held} {r : Span}
          → Run defs s d falls d₁
          → ReadsSections ss d₁ r d'
          → ReadsSections (section_stmt s ss) d r d'

    pub data ReadsEnter : Sections → Held → Span → Held → Type 0 where
      case_value : {v : Span} {ss : Sections} {d : Held} → ReadsEnter (case_label (some v) ss) d v d
      from_case :
          {v : Option Span} {ss : Sections} {d d' : Held} {r : Span}
          → ReadsSections ss d r d'
          → ReadsEnter (case_label v ss) d r d'
      from_default :
          {ss : Sections} {d d' : Held} {r : Span}
          → ReadsSections ss d r d'
          → ReadsEnter (default_label ss) d r d'
      not_case :
          {v : Option Span} {ss : Sections} {d d' : Held} {r : Span}
          → ReadsEnter ss d r d'
          → ReadsEnter (case_label v ss) d r d'
      not_default :
          {ss : Sections} {d d' : Held} {r : Span}
          → ReadsEnter ss d r d'
          → ReadsEnter (default_label ss) d r d'
      not_section :
          {s : Stmt} {ss : Sections} {d d' : Held} {r : Span}
          → ReadsEnter ss d r d'
          → ReadsEnter (section_stmt s ss) d r d'
