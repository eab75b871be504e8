-- ===== src/ReachingDefs/Analyzer.antt =====
-- The analyser itself: `Flow`, the helpers, and the walk over the statements. What the source keeps
-- in `self.out` is passed on and returned. A function that takes a body's evaluation as an argument
-- is the source's method of that name, with its recursive call as the argument.
use witcherscript_language.Base.{
  ℕ, ◌+◌, Bool, true, false, Option, none, some, List, [], ◌∷◌, leb, unwrap_or, if◌then◌else◌,
}
use witcherscript_language.ReachingDefs.Syntax.{
  Span, within, Stmt, Stmts, Body, Sections, func_block, leaf, return_stmt, break_stmt,
  continue_stmt, if_stmt, while_stmt, do_while_stmt, for_stmt, switch_stmt, switch_no_block, nop,
  unmodelled, stop, then_stmt, absent, present, close, case_label, default_label, section_stmt,
}
use witcherscript_language.ReachingDefs.Masks.{Mask, bit, full, bits_or, union}

pub record LocalDefinition : Type 0 where
  pub value : Option Span
  pub stmt : Option Span
  pub is_decl : Bool
  pub owner : Span

pub data Pass : Type 0 where
  learn record_reads : Pass

-- the shared part of `Analyzer`
pub record Analyzer : Type 0 where
  pub defs : List LocalDefinition
  pub reads : List Span

pub record Flow : Type 0 where
  pub normal : Option Mask
  pub breaks : Option Mask
  pub continues : Option Mask
  pub returns : Option Mask

abbrev pub flow_pass : Mask → Flow
flow_pass state = record { normal = some state; breaks = none; continues = none; returns = none }

abbrev pub Eval : Type 0
Eval = Mask → Pass → List Mask → Flow × List Mask

-- `max_by_key` over the definitions in the region: the index and start of the best one so far,
-- the later of two equal ones
unfoldable pub later_of : Option (ℕ × ℕ) → ℕ → ℕ → Option (ℕ × ℕ)
later_of none i start = some (i, start)
later_of (some (j, best)) i start = if leb best start then some (i, start) else some (j, best)

unfoldable pub latest_from : List LocalDefinition → ℕ → Span → Option (ℕ × ℕ) → Option (ℕ × ℕ)
unfolding later_of within
latest_from [] i region best = best
latest_from (d ∷ ds) i region best =
    latest_from ds (i + 1) region
      (if within d.owner region then later_of best i d.owner.start else best)

unfoldable pub latest_in : List LocalDefinition → Span → Option ℕ
unfolding latest_from
latest_in defs region = elim (latest_from defs 0 region none) [ none ↦ none | some (i, _) ↦ some i ]

unfoldable pub record_all : List Span → Span → Mask → List Mask → List Mask
unfolding within
record_all [] region state out = out
record_all (r ∷ rs) region state [] = []
record_all (r ∷ rs) region state (m ∷ ms) =
    (if within r region then bits_or m state else m) ∷ record_all rs region state ms

module _ (a : Analyzer) where
  unfoldable pub gen_in : Span → Mask → Mask
  gen_in region state = elim (latest_in a.defs region) [ some i ↦ bit i | none ↦ state ]

  unfoldable pub record_region : Span → Mask → Pass → List Mask → List Mask
  record_region region state learn out = out
  record_region region state record_reads out = record_all a.reads region state out

  -- `if let Some(cond) = ... { self.record(cond, state, pass) }`
  unfoldable pub record_field : Option Span → Mask → Pass → List Mask → List Mask
  unfolding record_region
  record_field none state pass out = out
  record_field (some region) state pass out = record_region region state pass out

  unfoldable pub poison : Span → Pass → List Mask → List Mask
  unfolding record_region
  poison region pass out = record_region region full pass out

  unfoldable pub eval_leaf : Span → Mask → Pass → List Mask → Mask × List Mask
  unfolding gen_in record_region
  eval_leaf node state pass out = (gen_in node state, record_region node state pass out)

  unfoldable pub gen_field : Option Span → Mask → Mask
  unfolding gen_in
  gen_field none state = state
  gen_field (some region) state = gen_in region state

  unfoldable pub eval_if : Option Span → Eval → Eval → Eval
  unfolding record_field union
  eval_if cond then_body else_body state pass out =
      let out₀ = record_field cond state pass out in
      let (then_flow, out₁) = then_body state pass out₀ in
      let (else_flow, out₂) = else_body state pass out₁ in
      (
        record {
          normal = union then_flow.normal else_flow.normal;
          breaks = union then_flow.breaks else_flow.breaks;
          continues = union then_flow.continues else_flow.continues;
          returns = union then_flow.returns else_flow.returns;
        },
        out₂,
      )

  unfoldable pub eval_while : Option Span → Eval → Eval
  unfolding record_field union
  eval_while cond body state pass out =
      let (body₁, out₁) = body state learn out in
      let header = unwrap_or (union (some state) (union body₁.normal body₁.continues)) state in
      let out₂ = record_field cond header pass out₁ in
      let (body₂, out₃) = body header pass out₂ in
      (
        record {
          normal = union (some header) body₂.breaks;
          breaks = none;
          continues = none;
          returns = body₂.returns;
        },
        out₃,
      )

  unfoldable pub eval_do_while : Option Span → Eval → Eval
  unfolding record_field union
  eval_do_while cond body state pass out =
      let (body₁, out₁) = body state learn out in
      let entry = unwrap_or (union (some state) (union body₁.normal body₁.continues)) state in
      let (body₂, out₂) = body entry pass out₁ in
      let at_cond = unwrap_or (union body₂.normal body₂.continues) entry in
      let out₃ = record_field cond at_cond pass out₂ in
      (
        record {
          normal = union body₂.normal body₂.breaks;
          breaks = none;
          continues = none;
          returns = body₂.returns;
        },
        out₃,
      )

  -- the loop of `for` from the state behind its initialiser on
  unfoldable pub eval_for_loop : Option Span → Option Span → Eval → Eval
  unfolding record_field union gen_field
  eval_for_loop cond iter body entry pass out =
      let (body₁, out₁) = body entry learn out in
      let after_body₁ = unwrap_or (union body₁.normal body₁.continues) entry in
      let after_iter₁ = gen_field iter after_body₁ in
      let header = unwrap_or (union (some entry) (some after_iter₁)) entry in
      let out₂ = record_field cond header pass out₁ in
      let (body₂, out₃) = body header pass out₂ in
      let after_body₂ = unwrap_or (union body₂.normal body₂.continues) header in
      let out₄ = record_field iter after_body₂ pass out₃ in
      (
        record {
          normal = union (some header) body₂.breaks;
          breaks = none;
          continues = none;
          returns = body₂.returns;
        },
        out₄,
      )

  unfoldable pub eval_for : Option Span → Option Span → Option Span → Eval → Eval
  unfolding record_field gen_field eval_for_loop
  eval_for init cond iter body state pass out =
      eval_for_loop cond iter body (gen_field init state) pass (record_field init state pass out)

-- the variables of the loop over a switch's sections
pub record SwitchState : Type 0 where
  pub cur : Option Mask
  pub breaks : Option Mask
  pub continues : Option Mask
  pub returns : Option Mask
  pub has_default : Bool

abbrev pub switch_start : SwitchState
switch_start = record {
  cur = none;
  breaks = none;
  continues = none;
  returns = none;
  has_default = false;
}

unfoldable pub enter_case : Mask → SwitchState → SwitchState
unfolding union
enter_case entry st = record st { cur = union st.cur (some entry) }

unfoldable pub enter_default : Mask → SwitchState → SwitchState
unfolding union
enter_default entry st = record st { cur = union st.cur (some entry); has_default = true }

unfoldable pub after_section : SwitchState → Flow → SwitchState
unfolding union
after_section st flow = record st {
  cur = flow.normal;
  breaks = union st.breaks flow.breaks;
  continues = union st.continues flow.continues;
  returns = union st.returns flow.returns;
}

unfoldable pub switch_flow : Mask → SwitchState → Flow
unfolding union
switch_flow entry st = record {
  normal =
      if st.has_default
      then union st.breaks st.cur
      else union (union st.breaks st.cur) (some entry);
  breaks = none;
  continues = st.continues;
  returns = st.returns;
}

-- the flow behind one more statement of a block
unfoldable pub join_flow : Flow → Flow → Flow
unfolding union
join_flow flow next = record {
  normal = next.normal;
  breaks = union flow.breaks next.breaks;
  continues = union flow.continues next.continues;
  returns = union flow.returns next.returns;
}

module _ (a : Analyzer) where
  unfoldable mutual
    unfolding gen_in record_region record_field poison eval_leaf eval_if eval_while eval_do_while
        eval_for enter_case enter_default after_section switch_flow join_flow

    pub eval_stmt : Stmt → Eval
    eval_stmt (func_block stmts) state pass out = eval_stmts stmts (flow_pass state) pass out
    eval_stmt (leaf _ node) state pass out =
        let (end, out') = eval_leaf a node state pass out in (flow_pass end, out')
    eval_stmt (return_stmt node) state pass out =
        let (end, out') = eval_leaf a node state pass out in
        (record { normal = none; breaks = none; continues = none; returns = some end }, out')
    eval_stmt break_stmt state pass out =
        (record { normal = none; breaks = some state; continues = none; returns = none }, out)
    eval_stmt continue_stmt state pass out =
        (record { normal = none; breaks = none; continues = some state; returns = none }, out)
    eval_stmt (if_stmt cond body other) state pass out =
        eval_if a cond (eval_body body) (eval_body other) state pass out
    eval_stmt (while_stmt cond body) state pass out =
        eval_while a cond (eval_body body) state pass out
    eval_stmt (do_while_stmt cond body) state pass out =
        eval_do_while a cond (eval_body body) state pass out
    eval_stmt (for_stmt init cond iter body) state pass out =
        eval_for a init cond iter (eval_body body) state pass out
    eval_stmt (switch_stmt cond sections) state pass out =
        let (st, out') =
          eval_sections sections state switch_start pass (record_field a cond state pass out) in
        (switch_flow state st, out')
    eval_stmt (switch_no_block cond) state pass out =
        (flow_pass state, record_field a cond state pass out)
    eval_stmt nop state pass out = (flow_pass state, out)
    eval_stmt (unmodelled node) state pass out = (flow_pass state, poison a node pass out)

    -- the loop of `eval_block`, with its `flow`
    pub eval_stmts : Stmts → Flow → Pass → List Mask → Flow × List Mask
    eval_stmts stop flow pass out = (flow, out)
    eval_stmts (then_stmt stmt rest) flow pass out = elim flow.normal [
      | none ↦ (flow, out)
      | some cur ↦
          let (next, out') = eval_stmt stmt cur pass out in
          eval_stmts rest (join_flow flow next) pass out'
    ]

    pub eval_body : Body → Eval
    eval_body absent state pass out = (flow_pass state, out)
    eval_body (present stmt) state pass out = eval_stmt stmt state pass out

    pub eval_sections : Sections → Mask → SwitchState → Pass → List Mask → SwitchState × List Mask
    eval_sections close entry st pass out = (st, out)
    eval_sections (case_label value rest) entry st pass out =
        eval_sections rest entry (enter_case entry st) pass (record_field a value entry pass out)
    eval_sections (default_label rest) entry st pass out =
        eval_sections rest entry (enter_default entry st) pass out
    eval_sections (section_stmt stmt rest) entry st pass out =
        let (flow, out') = eval_stmt stmt (unwrap_or st.cur entry) pass out in
        eval_sections rest entry (after_section st flow) pass out'
