-- ===== src/ReachingDefs/Results.antt =====
-- `reaching_defs` as a whole: the definitions of a variable, the run of the analyser over the
-- body, and the definition that each read is given.
use witcherscript_language.Base.{
  ℕ, Bool, true, false, Option, none, List, [], ◌∷◌, map, length, ltb, ◌==◌, if◌then◌else◌, ◌>>=◌,
}
use witcherscript_language.ReachingDefs.Syntax.{Span, Stmts}
use witcherscript_language.ReachingDefs.Masks.{Mask, empty, max_defs, sole_def}
use witcherscript_language.ReachingDefs.Analyzer.{
  LocalDefinition, Analyzer, eval_stmts, flow_pass, record_reads,
}

-- the operator and right side of the nearest enclosing assignment of a node
pub record Assignment : Type 0 where
  pub op_is_direct : Bool
  pub right : Option Span

-- A write's node, with its nearest enclosing assignment and expression statement.
pub record Target : Type 0 where
  pub node : Span
  pub assign : Option Assignment
  pub expr_stmt : Option Span

pub data WriteSite : Type 0 where
  assign_target assign_base out_arg receiver_base : Target → WriteSite

unfoldable pub write_site_node : WriteSite → Target
write_site_node (assign_target n) = n
write_site_node (assign_base n) = n
write_site_node (out_arg n) = n
write_site_node (receiver_base n) = n

unfoldable pub direct_assign_value : Target → Option Span
direct_assign_value t = t.assign >>= λ a. if a.op_is_direct then a.right else none

unfoldable pub site_definition : WriteSite → LocalDefinition
unfolding write_site_node direct_assign_value
site_definition (assign_target n) = record {
  value = direct_assign_value n;
  stmt = n.expr_stmt;
  is_decl = false;
  owner = n.node;
}
site_definition site = record {
  value = none;
  stmt = (write_site_node site).expr_stmt;
  is_decl = false;
  owner = (write_site_node site).node;
}

-- the declaration's span and its initialiser
pub record Decl : Type 0 where
  pub node : Span
  pub init_value : Option Span

unfoldable pub build_defs : Decl → ℕ → List WriteSite → List LocalDefinition
unfolding site_definition
build_defs decl names_len mutations =
    record {
      value = if names_len == 1 then decl.init_value else none;
      stmt = none;
      is_decl = true;
      owner = decl.node;
    }
    ∷ map site_definition mutations

-- `vec![0; reads.len()]`
unfoldable pub zeros : List Span → List Mask
zeros [] = []
zeros (r ∷ rs) = empty ∷ zeros rs

unfoldable pub per_read : List Span → List Mask → List (Span × Option ℕ)
per_read [] out = []
per_read (r ∷ rs) [] = []
per_read (r ∷ rs) (m ∷ ms) = (r, sole_def m) ∷ per_read rs ms

unfoldable pub undecided : List Span → List (Span × Option ℕ)
undecided [] = []
undecided (r ∷ rs) = (r, none) ∷ undecided rs

pub record ReachingDefs : Type 0 where
  pub per_read : List (Span × Option ℕ)
  pub all_defs : List LocalDefinition

-- `body` is the list of its named children
unfoldable pub reaching_defs : Stmts → Decl → ℕ → List WriteSite → List Span → ReachingDefs
unfolding build_defs zeros per_read undecided
reaching_defs body decl names_len mutations reads =
    let all_defs = build_defs decl names_len mutations in
    let a : Analyzer = record { defs = all_defs; reads = reads } in
    if ltb max_defs (length all_defs)
    then record { per_read = undecided reads; all_defs = all_defs }
    else record {
      per_read = per_read reads (eval_stmts a body (flow_pass empty) record_reads (zeros reads)).1;
      all_defs = all_defs;
    }
