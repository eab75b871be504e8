-- ===== src/ReachingDefs/Missed.antt =====
-- Statements outside `Supported`, and the runs through them.
use witcherscript_language.Base.{ℕ, ◌≡◌, ap, refl, sym, subst, ◌∙◌, none, some, List, false, arith}
use witcherscript_language.ReachingDefs.Syntax.{
  Span, Stmt, Stmts, nop, Body, func_block, leaf, continue_stmt, if_stmt, do_while_stmt, stop,
  then_stmt, absent, present, expr_stmt,
}
use witcherscript_language.ReachingDefs.Masks.{Mask, bit, bits_or, union}
use witcherscript_language.ReachingDefs.Analyzer.{
  LocalDefinition, Analyzer, Flow, flow_pass, record_field, eval_body, eval_stmts, Pass, eval_stmt,
  eval_do_while, eval_if, eval_leaf, latest_in, join_flow,
}
use witcherscript_language.ReachingDefs.Semantics.{
  effect, RunStmts, stops, nop_runs, Held, Run, RunBody, continues, falls, effect_field, block,
  leaf_runs, if_then, do_ends, no_round, goes_on, leaves, continue_runs, the_body, no_body,
}
use witcherscript_language.ReachingDefs.Holds.{gen_in-some, gen_in-none}
use witcherscript_language.ReachingDefs.Order.{effect-some, effect-none}

-- `do { if (guard) { first; continue; } second; } while (..)`
abbrev pub continue_body : Span → Span → Span → Body
continue_body guard first second = present (
    func_block (
      then_stmt
        (if_stmt (some guard)
          (present (func_block (then_stmt (leaf expr_stmt first) (then_stmt continue_stmt stop))))
          absent)
        (then_stmt (leaf expr_stmt second) stop)))

module _ (a : Analyzer) (cond guard first second : Span) (i j : ℕ)
    (pure : latest_in a.defs cond ≡ none) (pure_guard : latest_in a.defs guard ≡ none)
    (writes_i : latest_in a.defs first ≡ some i) (writes_j : latest_in a.defs second ≡ some j) where
  continues_at : (d : Held) → RunBody a.defs (continue_body guard first second) d continues (some i)
  unfolding effect_field
  continues_at d = the_body (
      block (
        leaves
          (if_then (
            the_body (
              block (
                goes_on
                  (subst (λ e. Run a.defs (leaf expr_stmt first) (effect a.defs guard d) falls e)
                    (effect-some a.defs first (effect a.defs guard d) i writes_i) leaf_runs)
                  (leaves continue_runs (λ e. cc))))))
          (λ e. cc)))

  -- For a `do` loop whose condition writes nothing, and whose body is an `if` that writes the first
  -- definition and continues, followed by the second definition: a run can leave the loop with the
  -- first, by `continue` and a false condition, and the analysis lets only the second one out, from
  -- every state.
  pub do_while-misses_continue :
      (d : Held) (state : Mask) (pass : Pass) (out : List Mask)
      → Run a.defs (do_while_stmt (some cond) (continue_body guard first second)) d falls (some i)
        × ((eval_stmt a
              (do_while_stmt (some cond) (continue_body guard first second))
              state
              pass
              out).0.normal
            ≡ some (bit j))
  unfolding eval_stmt eval_do_while eval_if eval_leaf join_flow union effect_field
  do_while-misses_continue d state pass out = (
    subst (λ e. Run a.defs (do_while_stmt (some cond) (continue_body guard first second)) d falls e)
        (effect-none a.defs cond (some i) pure) (do_ends no_round (continues_at d) tt),
    ap some (gen_in-some a second _ j writes_j),
  )

-- The statement neither jumps nor writes: blocks of leaves in which no definition stands.
abbrev mutual
  pub Quiet : List LocalDefinition → Stmt → Type 0
  Quiet defs (func_block s) = StmtsQuiet defs s
  Quiet defs (leaf k r) = latest_in defs r ≡ none
  Quiet defs nop = Unit
  Quiet defs _ = ⊥

  pub StmtsQuiet : List LocalDefinition → Stmts → Type 0
  StmtsQuiet defs stop = Unit
  StmtsQuiet defs (then_stmt s rest) = Quiet defs s × StmtsQuiet defs rest

abbrev pub BodyQuiet : List LocalDefinition → Body → Type 0
BodyQuiet defs absent = Unit
BodyQuiet defs (present s) = Quiet defs s

mutual
  Quiet-Run :
      (defs : List LocalDefinition) (s : Stmt) (d : Held) → Quiet defs s → Run defs s d falls d
  Quiet-Run defs (func_block s) d q = block (StmtsQuiet-Run defs s d q)
  Quiet-Run defs (leaf k r) d q =
      subst (λ e. Run defs (leaf k r) d falls e) (effect-none defs r d q) leaf_runs
  Quiet-Run defs nop d q = nop_runs
  Quiet-Run defs _ d q = absurd q

  StmtsQuiet-Run :
      (defs : List LocalDefinition) (s : Stmts) (d : Held)
      → StmtsQuiet defs s
      → RunStmts defs s d falls d
  StmtsQuiet-Run defs stop d q = stops
  StmtsQuiet-Run defs (then_stmt s rest) d (q, r) =
      goes_on (Quiet-Run defs s d q) (StmtsQuiet-Run defs rest d r)

BodyQuiet-Run :
    (defs : List LocalDefinition) (b : Body) (d : Held)
    → BodyQuiet defs b
    → RunBody defs b d falls d
BodyQuiet-Run defs absent d q = no_body
BodyQuiet-Run defs (present s) d q = the_body (Quiet-Run defs s d q)

mutual
  unfolding eval_stmt eval_leaf join_flow union

  Quiet-eval :
      (a : Analyzer) (s : Stmt) (state : Mask) (pass : Pass) (out : List Mask)
      → Quiet a.defs s
      → (eval_stmt a s state pass out).0 ≡ flow_pass state
  Quiet-eval a (func_block s) state pass out q = StmtsQuiet-eval a s state pass out q
  Quiet-eval a (leaf k r) state pass out q = ap flow_pass (gen_in-none a r state q)
  Quiet-eval a nop state pass out q = refl
  Quiet-eval a _ state pass out q = absurd q

  StmtsQuiet-eval :
      (a : Analyzer) (s : Stmts) (state : Mask) (pass : Pass) (out : List Mask)
      → StmtsQuiet a.defs s
      → (eval_stmts a s (flow_pass state) pass out).0 ≡ flow_pass state
  StmtsQuiet-eval a stop state pass out q = refl
  StmtsQuiet-eval a (then_stmt s rest) state pass out (q, r) =
      let (next, o) = eval_stmt a s state pass out in
      ap (λ f. (eval_stmts a rest (join_flow (flow_pass state) f) pass o).0)
        (Quiet-eval a s state pass out q)
      ∙ StmtsQuiet-eval a rest state pass o r

BodyQuiet-eval :
    (a : Analyzer) (b : Body) (state : Mask) (pass : Pass) (out : List Mask)
    → BodyQuiet a.defs b
    → (eval_body a b state pass out).0 ≡ flow_pass state
unfolding eval_stmt
BodyQuiet-eval a absent state pass out q = refl
BodyQuiet-eval a (present s) state pass out q = Quiet-eval a s state pass out q

-- For an `if` whose condition writes definition `i`, with branches that may be left out and
-- otherwise are blocks of leaves in which no definition stands: a run through it can leave with `i`,
-- and the analysis does not add `i` to the state behind the statement.
pub if-misses_cond_write :
    (a : Analyzer) (c : Span) (t e : Body) (i : ℕ) (d : Held) (state : Mask) (pass : Pass)
    (out : List Mask)
    → latest_in a.defs c ≡ some i
    → BodyQuiet a.defs t
    → BodyQuiet a.defs e
    → state i ≡ false
    → Run a.defs (if_stmt (some c) t e) d falls (some i)
      × (m : Mask) × ((eval_stmt a (if_stmt (some c) t e) state pass out).0.normal ≡ some m)
      × (m i ≡ false)
unfolding eval_stmt eval_if effect_field
if-misses_cond_write a c t e i d state pass out writes qt qe clear =
    let o₀ = record_field a (some c) state pass out in
    let o₁ = (eval_body a t state pass o₀).1 in
    (
      if_then (
          subst (λ h. RunBody a.defs t h falls (some i)) (sym (effect-some a.defs c d i writes))
            (BodyQuiet-Run a.defs t (some i) qt)),
      bits_or state state,
      ap (λ (p : Flow × Flow). union p.0.normal p.1.normal)
          (λ k. (BodyQuiet-eval a t state pass o₀ qt k, BodyQuiet-eval a e state pass o₁ qe k)),
      ground arith,
    )
