-- ===== src/ReachingDefs/Shape.antt =====
-- Gen and kill as a property of runs.
use witcherscript_language.Base.{
  ◌≡◌, refl, sym, ◌∙◌, subst, ◌⊎◌, inl, inr, Option, none, some, List, Option-cases,
}
use witcherscript_language.ReachingDefs.Syntax.{
  Span, Stmt, Stmts, Body, Sections, leaf, return_stmt, if_stmt, while_stmt, do_while_stmt,
  for_stmt, switch_stmt, switch_no_block, unmodelled, func_block, then_stmt, present, case_label,
  default_label, section_stmt,
}
use witcherscript_language.ReachingDefs.Analyzer.{LocalDefinition, latest_in}
use witcherscript_language.ReachingDefs.Semantics.{
  Held, Exit, Run, RunStmts, RunBody, Rounds, RunSections, Enter, effect_field,
}
use witcherscript_language.ReachingDefs.Order.{effect-none, effect-some}
use witcherscript_language.ReachingDefs.Semantics.{
  falls, breaks, returns, leave_switch, block, leaf_runs, return_runs, break_runs, continue_runs,
  if_then, if_else, while_ends, while_breaks, while_returns, do_ends, do_breaks, do_returns,
  for_ends, for_breaks, for_returns, switch_enters, switch_skips, switch_empty, nop_runs,
  unmodelled_runs, stops, goes_on, leaves, no_body, the_body, no_round, round, closes, past_case,
  past_default, section_goes_on, section_leaves, at_case, at_default, beyond_case, beyond_default,
  beyond_section,
}

abbrev pub Shape : (Held → Held → Type 0) → Held → Held → Type 0
Shape R d d' = ((e : Held) → R e d') ⊎ ((d' ≡ d) × ((e : Held) → R e e))

module _ (R S : Held → Held → Type 0) {d d' : Held} (f : (e e' : Held) → R e e' → S e e') where
  Shape-via : Shape R d d' → Shape S d d'
  Shape-via (inl k) = inl (λ e. f e d' (k e))
  Shape-via (inr (p, k)) = inr (p, λ e. f e e (k e))

module _ (R S T : Held → Held → Type 0) {d d₁ d₂ : Held}
    (f : (e e₁ e₂ : Held) → R e e₁ → S e₁ e₂ → T e e₂) where
  Shape-then : Shape R d d₁ → Shape S d₁ d₂ → Shape T d d₂
  Shape-then (inl j) (inl k) = inl (λ e. f e d₁ d₂ (j e) (k d₁))
  Shape-then (inl j) (inr (p, k)) = inl (λ e. f e d₁ d₂ (j e) (subst (S d₁) (sym p) (k d₁)))
  Shape-then (inr (q, j)) (inl k) = inl (λ e. f e e d₂ (j e) (k e))
  Shape-then (inr (q, j)) (inr (p, k)) = inr (p ∙ q, λ e. f e e e (j e) (k e))

abbrev Then : (Held → Held → Type 0) → (Held → Held → Type 0) → Held → Held → Type 0
Then R S e e' = (e₁ : Held) × R e e₁ × S e₁ e'

Shape-pair :
    (R S : Held → Held → Type 0) {d d₁ d₂ : Held}
    → Shape R d d₁
    → Shape S d₁ d₂
    → Shape (Then R S) d d₂
Shape-pair R S = Shape-then R S (Then R S) (λ e e₁ e₂ q p. (e₁, q, p))

module _ (defs : List LocalDefinition) where
  abbrev Effect : Option Span → Held → Held → Type 0
  Effect r e e' = e' ≡ effect_field defs r e

  Shape-Effect : (r : Option Span) (d : Held) → Shape (Effect r) d (effect_field defs r d)
  unfolding effect_field
  Shape-Effect none d = inr (refl, λ e. refl)
  Shape-Effect (some r) d = elim (Option-cases (latest_in defs r)) [
    | inl n ↦ inr (effect-none defs r d n, λ e. sym (effect-none defs r e n))
    | inr (i, s) ↦ inl (λ e. effect-some defs r d i s ∙ sym (effect-some defs r e i s))
  ]

  -- a run behind the evaluation of a region, and one before it
  module _ (S T : Held → Held → Type 0) {d d' : Held} (r : Option Span) where
    Shape-behind :
        ((e e' : Held) → S (effect_field defs r e) e' → T e e')
        → Shape S (effect_field defs r d) d'
        → Shape T d d'
    Shape-behind f s =
        Shape-then (Effect r) S T (λ e e₁ e₂ p q. f e e₂ (subst (λ x. S x e₂) p q))
          (Shape-Effect r d) s

    Shape-before :
        ((e e' : Held) → S e e' → T e (effect_field defs r e'))
        → Shape S d d'
        → Shape T d (effect_field defs r d')
    Shape-before f s =
        Shape-then S (Effect r) T (λ e e₁ e₂ p q. subst (T e) (sym q) (f e e₁ p)) s
          (Shape-Effect r d')

  abbrev Same : Held → Held → Type 0
  Same e e' = e' ≡ e

  Shape-Same : (d : Held) → Shape Same d d
  Shape-Same d = inr (refl, λ e. refl)

  abbrev RunOf : Stmt → Exit → Held → Held → Type 0
  RunOf s x e e' = Run defs s e x e'

  abbrev BodyOf : Body → Exit → Held → Held → Type 0
  BodyOf b x e e' = RunBody defs b e x e'

  abbrev RoundsOf : Option Span → Option Span → Body → Held → Held → Type 0
  RoundsOf pre post b e e' = Rounds defs pre post b e e'

  abbrev BodyBehind : Option Span → Body → Exit → Held → Held → Type 0
  BodyBehind c b x e e' = RunBody defs b (effect_field defs c e) x e'

  Shape-body :
      (c : Option Span) (b : Body) (x : Exit) {d d' : Held}
      → Shape (BodyOf b x) (effect_field defs c d) d'
      → Shape (BodyBehind c b x) d d'
  Shape-body c b x = Shape-behind (BodyOf b x) (BodyBehind c b x) c (λ e e' q. q)

  -- evaluating one region and nothing else
  Shape-leaf :
      (T : Held → Held → Type 0) (r : Option Span) (d : Held)
      → ((e : Held) → T e (effect_field defs r e))
      → Shape T d (effect_field defs r d)
  Shape-leaf T r d f =
      Shape-before Same T r (λ e e' p. subst (λ y. T e (effect_field defs r y)) (sym p) (f e))
        (Shape-Same d)

  abbrev StmtsOf : Stmts → Exit → Held → Held → Type 0
  StmtsOf s x e e' = RunStmts defs s e x e'

  abbrev SectionsOf : Sections → Exit → Held → Held → Type 0
  SectionsOf s x e e' = RunSections defs s e x e'

  abbrev EnterOf : Sections → Exit → Held → Held → Type 0
  EnterOf s x e e' = Enter defs s e x e'

  mutual
    unfolding effect_field

    pub Run-Shape : {s : Stmt} {d d' : Held} {x : Exit} → Run defs s d x d' → Shape (RunOf s x) d d'
    Run-Shape (block {s} {x = x} r) =
        Shape-via (StmtsOf s x) (RunOf (func_block s) x) (λ e e' q. block q) (RunStmts-Shape r)
    Run-Shape (leaf_runs {k} {r} {d}) =
        Shape-leaf (RunOf (leaf k r) falls) (some r) d (λ e. leaf_runs)
    Run-Shape (return_runs {r} {d}) =
        Shape-leaf (RunOf (return_stmt r) returns) (some r) d (λ e. return_runs)
    Run-Shape break_runs = inr (refl, λ e. break_runs)
    Run-Shape continue_runs = inr (refl, λ e. continue_runs)
    Run-Shape (if_then {c} {t} {e = o} {x = x} r) =
        Shape-behind (BodyOf t x) (RunOf (if_stmt c t o) x) c (λ e e' q. if_then q)
          (RunBody-Shape r)
    Run-Shape (if_else {c} {t} {e = o} {x = x} r) =
        Shape-behind (BodyOf o x) (RunOf (if_stmt c t o) x) c (λ e e' q. if_else q)
          (RunBody-Shape r)
    Run-Shape (while_ends {c} {b} rs) =
        Shape-before (RoundsOf c none b) (RunOf (while_stmt c b) falls) c (λ e e' q. while_ends q)
          (Rounds-Shape rs)
    Run-Shape (while_breaks {c} {b} rs r) =
        Shape-then (RoundsOf c none b) (BodyBehind c b breaks) (RunOf (while_stmt c b) falls)
          (λ e e₁ e₂ q p. while_breaks q p) (Rounds-Shape rs)
          (Shape-body c b breaks (RunBody-Shape r))
    Run-Shape (while_returns {c} {b} rs r) =
        Shape-then (RoundsOf c none b) (BodyBehind c b returns) (RunOf (while_stmt c b) returns)
          (λ e e₁ e₂ q p. while_returns q p) (Rounds-Shape rs)
          (Shape-body c b returns (RunBody-Shape r))
    Run-Shape (do_ends {c} {b} {x = x} rs r k) =
        Shape-before (Then (RoundsOf none c b) (BodyOf b x)) (RunOf (do_while_stmt c b) falls) c
          (λ e e' q. do_ends q.1 q.2 k)
          (Shape-pair (RoundsOf none c b) (BodyOf b x) (Rounds-Shape rs) (RunBody-Shape r))
    Run-Shape (do_breaks {c} {b} rs r) =
        Shape-then (RoundsOf none c b) (BodyOf b breaks) (RunOf (do_while_stmt c b) falls)
          (λ e e₁ e₂ q p. do_breaks q p) (Rounds-Shape rs) (RunBody-Shape r)
    Run-Shape (do_returns {c} {b} rs r) =
        Shape-then (RoundsOf none c b) (BodyOf b returns) (RunOf (do_while_stmt c b) returns)
          (λ e e₁ e₂ q p. do_returns q p) (Rounds-Shape rs) (RunBody-Shape r)
    Run-Shape (for_ends {i} {c} {p} {b} {d} {d₁} rs) =
        Shape-behind (Then (RoundsOf c p b) (Effect c)) (RunOf (for_stmt i c p b) falls) i
          (λ e e' q. subst (λ y. Run defs (for_stmt i c p b) e falls y) (sym q.2) (for_ends q.1))
          (Shape-pair (RoundsOf c p b) (Effect c) (Rounds-Shape rs) (Shape-Effect c d₁))
    Run-Shape (for_breaks {i} {c} {p} {b} rs r) =
        Shape-behind (Then (RoundsOf c p b) (BodyBehind c b breaks))
          (RunOf (for_stmt i c p b) falls) i (λ e e' q. for_breaks q.1 q.2)
          (Shape-pair (RoundsOf c p b) (BodyBehind c b breaks) (Rounds-Shape rs)
            (Shape-body c b breaks (RunBody-Shape r)))
    Run-Shape (for_returns {i} {c} {p} {b} rs r) =
        Shape-behind (Then (RoundsOf c p b) (BodyBehind c b returns))
          (RunOf (for_stmt i c p b) returns) i (λ e e' q. for_returns q.1 q.2)
          (Shape-pair (RoundsOf c p b) (BodyBehind c b returns) (Rounds-Shape rs)
            (Shape-body c b returns (RunBody-Shape r)))
    Run-Shape (switch_enters {c} {ss} {x = x} r) =
        Shape-behind (EnterOf ss x) (RunOf (switch_stmt c ss) (leave_switch x)) c
          (λ e e' q. switch_enters q) (Enter-Shape r)
    Run-Shape (switch_skips {c} {ss} {d} n) =
        Shape-leaf (RunOf (switch_stmt c ss) falls) c d (λ e. switch_skips n)
    Run-Shape (switch_empty {c} {d}) =
        Shape-leaf (RunOf (switch_no_block c) falls) c d (λ e. switch_empty)
    Run-Shape nop_runs = inr (refl, λ e. nop_runs)
    Run-Shape (unmodelled_runs {r} {d}) =
        Shape-leaf (RunOf (unmodelled r) falls) (some r) d (λ e. unmodelled_runs)

    RunStmts-Shape :
        {s : Stmts} {d d' : Held} {x : Exit} → RunStmts defs s d x d' → Shape (StmtsOf s x) d d'
    RunStmts-Shape stops = inr (refl, λ e. stops)
    RunStmts-Shape (goes_on {s} {ss} {x = x} r q) =
        Shape-then (RunOf s falls) (StmtsOf ss x) (StmtsOf (then_stmt s ss) x)
          (λ e e₁ e₂ h k. goes_on h k) (Run-Shape r) (RunStmts-Shape q)
    RunStmts-Shape (leaves {s} {ss} {x = x} r n) =
        Shape-via (RunOf s x) (StmtsOf (then_stmt s ss) x) (λ e e' q. leaves q n) (Run-Shape r)

    pub RunBody-Shape :
        {b : Body} {d d' : Held} {x : Exit} → RunBody defs b d x d' → Shape (BodyOf b x) d d'
    RunBody-Shape no_body = inr (refl, λ e. no_body)
    RunBody-Shape (the_body {s} {x = x} r) =
        Shape-via (RunOf s x) (BodyOf (present s) x) (λ e e' q. the_body q) (Run-Shape r)

    Rounds-Shape :
        {c p : Option Span} {b : Body} {d d' : Held}
        → Rounds defs c p b d d'
        → Shape (RoundsOf c p b) d d'
    Rounds-Shape no_round = inr (refl, λ e. no_round)
    Rounds-Shape (round {pre} {post} {b} {x = x} rs r k) =
        Shape-before (Then (RoundsOf pre post b) (BodyBehind pre b x)) (RoundsOf pre post b) post
          (λ e e' q. round q.1 q.2 k)
          (Shape-pair (RoundsOf pre post b) (BodyBehind pre b x) (Rounds-Shape rs)
            (Shape-body pre b x (RunBody-Shape r)))

    RunSections-Shape :
        {ss : Sections} {d d' : Held} {x : Exit}
        → RunSections defs ss d x d'
        → Shape (SectionsOf ss x) d d'
    RunSections-Shape closes = inr (refl, λ e. closes)
    RunSections-Shape (past_case {v} {ss} {x = x} r) =
        Shape-via (SectionsOf ss x) (SectionsOf (case_label v ss) x) (λ e e' q. past_case q)
          (RunSections-Shape r)
    RunSections-Shape (past_default {ss} {x = x} r) =
        Shape-via (SectionsOf ss x) (SectionsOf (default_label ss) x) (λ e e' q. past_default q)
          (RunSections-Shape r)
    RunSections-Shape (section_goes_on {s} {ss} {x = x} r q) =
        Shape-then (RunOf s falls) (SectionsOf ss x) (SectionsOf (section_stmt s ss) x)
          (λ e e₁ e₂ h k. section_goes_on h k) (Run-Shape r) (RunSections-Shape q)
    RunSections-Shape (section_leaves {s} {ss} {x = x} r n) =
        Shape-via (RunOf s x) (SectionsOf (section_stmt s ss) x) (λ e e' q. section_leaves q n)
          (Run-Shape r)

    Enter-Shape :
        {ss : Sections} {d d' : Held} {x : Exit} → Enter defs ss d x d' → Shape (EnterOf ss x) d d'
    Enter-Shape (at_case {v} {ss} {x = x} r) =
        Shape-via (SectionsOf ss x) (EnterOf (case_label v ss) x) (λ e e' q. at_case q)
          (RunSections-Shape r)
    Enter-Shape (at_default {ss} {x = x} r) =
        Shape-via (SectionsOf ss x) (EnterOf (default_label ss) x) (λ e e' q. at_default q)
          (RunSections-Shape r)
    Enter-Shape (beyond_case {v} {ss} {x = x} r) =
        Shape-via (EnterOf ss x) (EnterOf (case_label v ss) x) (λ e e' q. beyond_case q)
          (Enter-Shape r)
    Enter-Shape (beyond_default {ss} {x = x} r) =
        Shape-via (EnterOf ss x) (EnterOf (default_label ss) x) (λ e e' q. beyond_default q)
          (Enter-Shape r)
    Enter-Shape (beyond_section {s} {ss} {x = x} r) =
        Shape-via (EnterOf ss x) (EnterOf (section_stmt s ss) x) (λ e e' q. beyond_section q)
          (Enter-Shape r)
