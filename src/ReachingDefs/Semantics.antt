-- ===== src/ReachingDefs/Semantics.antt =====
-- What the analysis is about: the runs of a function body, as a relation. The state of a run is the
-- index of the definition whose value the variable holds, or `none` before the first. Which branch is
-- taken and how often a loop goes round is left open. The definitions inside one evaluated region
-- take effect in the order in which their nodes start in the text.
use witcherscript_language.Base.{
  ℕ, ◌+◌, ◌≡◌, ◌≢◌, Bool, false, Option, none, some, List, [], ◌∷◌, sort_by_key, filter,
  if◌then◌else◌,
}
use witcherscript_language.ReachingDefs.Syntax.{
  Span, within, Stmt, Stmts, Body, Sections, Leaf, func_block, leaf, return_stmt, break_stmt,
  continue_stmt, if_stmt, while_stmt, do_while_stmt, for_stmt, switch_stmt, switch_no_block, nop,
  unmodelled, stop, then_stmt, absent, present, close, case_label, default_label, section_stmt,
}
use witcherscript_language.ReachingDefs.Analyzer.{LocalDefinition}

abbrev pub Held : Type 0
Held = Option ℕ

-- How control leaves a statement.
pub data Exit : Type 0 where
  falls breaks continues returns : Exit

-- The exits of a loop's body after which the loop goes on.
abbrev pub Resumes : Exit → Type 0
Resumes falls = Unit
Resumes continues = Unit
Resumes breaks = ⊥
Resumes returns = ⊥

-- The exit of a switch, from the exit of its sections.
abbrev pub leave_switch : Exit → Exit
leave_switch breaks = falls
leave_switch falls = falls
leave_switch continues = continues
leave_switch returns = returns

unfoldable pub has_default : Sections → Bool
has_default close = false
has_default (case_label _ rest) = has_default rest
has_default (default_label rest) = Bool.true
has_default (section_stmt _ rest) = has_default rest

-- A definition that takes effect: its index and its node.
abbrev pub Event : Type 0
Event = ℕ × Span

abbrev pub starts_at : Event → ℕ
starts_at x = x.1.start

unfoldable pub numbered : ℕ → List LocalDefinition → List Event
numbered i [] = []
numbered i (d ∷ ds) = (i, d.owner) ∷ numbered (i + 1) ds

-- Each event in the region overwrites the variable, in the order given.
unfoldable pub replay : Span → List Event → Held → Held
unfolding within
replay region [] d = d
replay region ((i, owner) ∷ events) d =
    replay region events (if within owner region then some i else d)

module _ (defs : List LocalDefinition) where
  -- Evaluating a region lets the definitions in it take effect one after the other.
  unfoldable pub effect : Span → Held → Held
  unfolding replay sort_by_key numbered
  effect region d = replay region (sort_by_key starts_at (numbered 0 defs)) d

  -- What a read in a region sees that is evaluated from `d` on: the definitions of the region that
  -- take effect before the read have overwritten `d`. Which ones these are is the language's order of
  -- evaluation (an assignment lands behind its right-hand side, an out argument with its call).
  unfoldable pub seen : (ℕ → Span → Bool) → Span → Span → Held → Held
  unfolding replay sort_by_key numbered filter
  seen lands_before region read d =
      replay region (filter (λ x. lands_before x.0 read) (sort_by_key starts_at (numbered 0 defs)))
        d

  unfoldable pub effect_field : Option Span → Held → Held
  unfolding effect
  effect_field none d = d
  effect_field (some region) d = effect region d

  mutual
    -- `Run s d x d'`: `s` may start with the variable at `d`, and leave by `x` with it at `d'`.
    pub data Run : Stmt → Held → Exit → Held → Type 0 where
      block : {s : Stmts} {d d' : Held} {x : Exit} → RunStmts s d x d' → Run (func_block s) d x d'
      leaf_runs : {k : Leaf} {r : Span} {d : Held} → Run (leaf k r) d falls (effect r d)
      return_runs : {r : Span} {d : Held} → Run (return_stmt r) d returns (effect r d)
      break_runs : {d : Held} → Run break_stmt d breaks d
      continue_runs : {d : Held} → Run continue_stmt d continues d
      if_then :
          {c : Option Span} {t e : Body} {d d' : Held} {x : Exit}
          → RunBody t (effect_field c d) x d'
          → Run (if_stmt c t e) d x d'
      if_else :
          {c : Option Span} {t e : Body} {d d' : Held} {x : Exit}
          → RunBody e (effect_field c d) x d'
          → Run (if_stmt c t e) d x d'
      while_ends :
          {c : Option Span} {b : Body} {d d₁ : Held}
          → Rounds c none b d d₁
          → Run (while_stmt c b) d falls (effect_field c d₁)
      while_breaks :
          {c : Option Span} {b : Body} {d d₁ d' : Held}
          → Rounds c none b d d₁
          → RunBody b (effect_field c d₁) breaks d'
          → Run (while_stmt c b) d falls d'
      while_returns :
          {c : Option Span} {b : Body} {d d₁ d' : Held}
          → Rounds c none b d d₁
          → RunBody b (effect_field c d₁) returns d'
          → Run (while_stmt c b) d returns d'
      do_ends :
          {c : Option Span} {b : Body} {d d₁ d₂ : Held} {x : Exit}
          → Rounds none c b d d₁
          → RunBody b d₁ x d₂
          → Resumes x
          → Run (do_while_stmt c b) d falls (effect_field c d₂)
      do_breaks :
          {c : Option Span} {b : Body} {d d₁ d' : Held}
          → Rounds none c b d d₁
          → RunBody b d₁ breaks d'
          → Run (do_while_stmt c b) d falls d'
      do_returns :
          {c : Option Span} {b : Body} {d d₁ d' : Held}
          → Rounds none c b d d₁
          → RunBody b d₁ returns d'
          → Run (do_while_stmt c b) d returns d'
      for_ends :
          {i c p : Option Span} {b : Body} {d d₁ : Held}
          → Rounds c p b (effect_field i d) d₁
          → Run (for_stmt i c p b) d falls (effect_field c d₁)
      for_breaks :
          {i c p : Option Span} {b : Body} {d d₁ d' : Held}
          → Rounds c p b (effect_field i d) d₁
          → RunBody b (effect_field c d₁) breaks d'
          → Run (for_stmt i c p b) d falls d'
      for_returns :
          {i c p : Option Span} {b : Body} {d d₁ d' : Held}
          → Rounds c p b (effect_field i d) d₁
          → RunBody b (effect_field c d₁) returns d'
          → Run (for_stmt i c p b) d returns d'
      switch_enters :
          {c : Option Span} {ss : Sections} {d d' : Held} {x : Exit}
          → Enter ss (effect_field c d) x d'
          → Run (switch_stmt c ss) d (leave_switch x) d'
      switch_skips :
          {c : Option Span} {ss : Sections} {d : Held}
          → has_default ss ≡ false
          → Run (switch_stmt c ss) d falls (effect_field c d)
      switch_empty :
          {c : Option Span} {d : Held} → Run (switch_no_block c) d falls (effect_field c d)
      nop_runs : {d : Held} → Run nop d falls d
      unmodelled_runs : {r : Span} {d : Held} → Run (unmodelled r) d falls (effect r d)

    pub data RunStmts : Stmts → Held → Exit → Held → Type 0 where
      stops : {d : Held} → RunStmts stop d falls d
      goes_on :
          {s : Stmt} {ss : Stmts} {d d₁ d' : Held} {x : Exit}
          → Run s d falls d₁
          → RunStmts ss d₁ x d'
          → RunStmts (then_stmt s ss) d x d'
      leaves :
          {s : Stmt} {ss : Stmts} {d d' : Held} {x : Exit}
          → Run s d x d'
          → x ≢ falls
          → RunStmts (then_stmt s ss) d x d'

    pub data RunBody : Body → Held → Exit → Held → Type 0 where
      no_body : {d : Held} → RunBody absent d falls d
      the_body : {s : Stmt} {d d' : Held} {x : Exit} → Run s d x d' → RunBody (present s) d x d'

    -- Whole rounds of a loop that evaluates `pre` before its body and `post` behind it.
    pub data Rounds : Option Span → Option Span → Body → Held → Held → Type 0 where
      no_round : {pre post : Option Span} {b : Body} {d : Held} → Rounds pre post b d d
      round :
          {pre post : Option Span} {b : Body} {d d₁ d₂ : Held} {x : Exit}
          → Rounds pre post b d d₁
          → RunBody b (effect_field pre d₁) x d₂
          → Resumes x
          → Rounds pre post b d (effect_field post d₂)

    -- Sections from their first on, falling through labels.
    pub data RunSections : Sections → Held → Exit → Held → Type 0 where
      closes : {d : Held} → RunSections close d falls d
      past_case :
          {v : Option Span} {ss : Sections} {d d' : Held} {x : Exit}
          → RunSections ss d x d'
          → RunSections (case_label v ss) d x d'
      past_default :
          {ss : Sections} {d d' : Held} {x : Exit}
          → RunSections ss d x d'
          → RunSections (default_label ss) d x d'
      section_goes_on :
          {s : Stmt} {ss : Sections} {d d₁ d' : Held} {x : Exit}
          → Run s d falls d₁
          → RunSections ss d₁ x d'
          → RunSections (section_stmt s ss) d x d'
      section_leaves :
          {s : Stmt} {ss : Sections} {d d' : Held} {x : Exit}
          → Run s d x d'
          → x ≢ falls
          → RunSections (section_stmt s ss) d x d'

    -- A jump from the head of the switch to one of its labels.
    pub data Enter : Sections → Held → Exit → Held → Type 0 where
      at_case :
          {v : Option Span} {ss : Sections} {d d' : Held} {x : Exit}
          → RunSections ss d x d'
          → Enter (case_label v ss) d x d'
      at_default :
          {ss : Sections} {d d' : Held} {x : Exit}
          → RunSections ss d x d'
          → Enter (default_label ss) d x d'
      beyond_case :
          {v : Option Span} {ss : Sections} {d d' : Held} {x : Exit}
          → Enter ss d x d'
          → Enter (case_label v ss) d x d'
      beyond_default :
          {ss : Sections} {d d' : Held} {x : Exit}
          → Enter ss d x d'
          → Enter (default_label ss) d x d'
      beyond_section :
          {s : Stmt} {ss : Sections} {d d' : Held} {x : Exit}
          → Enter ss d x d'
          → Enter (section_stmt s ss) d x d'
