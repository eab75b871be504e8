-- ===== src/ReachingDefs/Sequences.antt =====
-- The accumulated flows of blocks and switches.
use witcherscript_language.Base.{
  ◌≡◌, ◌≢◌, refl, inl, inr, Option, none, some, List, false, unwrap_or, Bool-cases,
}
use witcherscript_language.ReachingDefs.Syntax.{
  Stmts, Sections, stop, then_stmt, close, case_label, default_label, section_stmt,
}
use witcherscript_language.ReachingDefs.Masks.{Mask, union}
use witcherscript_language.ReachingDefs.Analyzer.{
  Analyzer, Pass, Flow, SwitchState, eval_stmt, eval_stmts, eval_sections, join_flow, after_section,
  enter_case, enter_default, switch_flow, record_field,
}
use witcherscript_language.ReachingDefs.Semantics.{
  Held, Exit, falls, breaks, continues, returns, leave_switch, has_default,
}
use witcherscript_language.ReachingDefs.Holds.{
  InFlow, In, exit_of, InFlow-union_left, InFlow-union_right,
}

abbrev pub flow_of : Option Mask → Option Mask → Option Mask → Option Mask → Flow
flow_of n b c r = record { normal = n; breaks = b; continues = c; returns = r }

abbrev pub switch_exit : Exit → SwitchState → Option Mask
switch_exit falls st = st.cur
switch_exit breaks st = st.breaks
switch_exit continues st = st.continues
switch_exit returns st = st.returns

pub exit-join_old :
    (x : Exit) (flow next : Flow) (d : Held)
    → x ≢ falls
    → InFlow (exit_of x flow) d
    → InFlow (exit_of x (join_flow flow next)) d
unfolding join_flow
exit-join_old falls flow next d n h = absurd (n refl)
exit-join_old breaks flow next d n h = InFlow-union_left flow.breaks next.breaks d h
exit-join_old continues flow next d n h = InFlow-union_left flow.continues next.continues d h
exit-join_old returns flow next d n h = InFlow-union_left flow.returns next.returns d h

pub exit-join_new :
    (x : Exit) (flow next : Flow) (d : Held)
    → InFlow (exit_of x next) d
    → InFlow (exit_of x (join_flow flow next)) d
unfolding join_flow
exit-join_new falls flow next d h = h
exit-join_new breaks flow next d h = InFlow-union_right flow.breaks next.breaks d h
exit-join_new continues flow next d h = InFlow-union_right flow.continues next.continues d h
exit-join_new returns flow next d h = InFlow-union_right flow.returns next.returns d h

pub exit-after_section_old :
    (x : Exit) (st : SwitchState) (flow : Flow) (d : Held)
    → x ≢ falls
    → InFlow (switch_exit x st) d
    → InFlow (switch_exit x (after_section st flow)) d
unfolding after_section
exit-after_section_old falls st flow d n h = absurd (n refl)
exit-after_section_old breaks st flow d n h = InFlow-union_left st.breaks flow.breaks d h
exit-after_section_old continues st flow d n h = InFlow-union_left st.continues flow.continues d h
exit-after_section_old returns st flow d n h = InFlow-union_left st.returns flow.returns d h

pub exit-after_section_new :
    (x : Exit) (st : SwitchState) (flow : Flow) (d : Held)
    → InFlow (exit_of x flow) d
    → InFlow (switch_exit x (after_section st flow)) d
unfolding after_section
exit-after_section_new falls st flow d h = h
exit-after_section_new breaks st flow d h = InFlow-union_right st.breaks flow.breaks d h
exit-after_section_new continues st flow d h = InFlow-union_right st.continues flow.continues d h
exit-after_section_new returns st flow d h = InFlow-union_right st.returns flow.returns d h

-- The switch's flow covers the exits of its sections, and the head where no label need match.
pub switch_flow-leaves :
    (x : Exit) (entry : Mask) (st : SwitchState) (d : Held)
    → InFlow (switch_exit x st) d
    → InFlow (exit_of (leave_switch x) (switch_flow entry st)) d
unfolding switch_flow
switch_flow-leaves falls entry st d h = elim (Bool-cases st.has_default) [
  | inl e ↦ rw e (InFlow-union_right st.breaks st.cur d h)
  | inr e ↦ rw e (
      InFlow-union_left (union st.breaks st.cur) (some entry) d
        (InFlow-union_right st.breaks st.cur d h))
]
switch_flow-leaves breaks entry st d h = elim (Bool-cases st.has_default) [
  | inl e ↦ rw e (InFlow-union_left st.breaks st.cur d h)
  | inr e ↦ rw e (
      InFlow-union_left (union st.breaks st.cur) (some entry) d
        (InFlow-union_left st.breaks st.cur d h))
]
switch_flow-leaves continues entry st d h = h
switch_flow-leaves returns entry st d h = h

pub switch_flow-skips :
    (entry : Mask) (st : SwitchState) (d : Held)
    → st.has_default ≡ false
    → In entry d
    → InFlow (switch_flow entry st).normal d
unfolding switch_flow
switch_flow-skips entry st d e h =
    rw e (InFlow-union_right (union st.breaks st.cur) (some entry) d h)

module _ (a : Analyzer) where
  pub exit-eval_stmts :
      (ss : Stmts) (x : Exit) (n b c r : Option Mask) (pass : Pass) (out : List Mask) (d : Held)
      → x ≢ falls
      → InFlow (exit_of x (flow_of n b c r)) d
      → InFlow (exit_of x (eval_stmts a ss (flow_of n b c r) pass out).0) d
  unfolding eval_stmts join_flow
  exit-eval_stmts stop x n b c r pass out d ne h = h
  exit-eval_stmts (then_stmt s rest) x none b c r pass out d ne h = h
  exit-eval_stmts (then_stmt s rest) x (some cur) b c r pass out d ne h =
      let (next, out') = eval_stmt a s cur pass out in
      exit-eval_stmts rest x next.normal (union b next.breaks) (union c next.continues)
        (union r next.returns) pass out' d ne
        (exit-join_old x (flow_of (some cur) b c r) next d ne h)

  pub exit-eval_sections :
      (ss : Sections) (x : Exit) (entry : Mask) (st : SwitchState) (pass : Pass) (out : List Mask)
      (d : Held)
      → x ≢ falls
      → InFlow (switch_exit x st) d
      → InFlow (switch_exit x (eval_sections a ss entry st pass out).0) d
  unfolding eval_sections enter_case enter_default
  exit-eval_sections close x entry st pass out d ne h = h
  exit-eval_sections (case_label v rest) x entry st pass out d ne h =
      exit-eval_sections rest x entry (enter_case entry st) pass (record_field a v entry pass out) d
        ne (keeps x h)
    where
      keeps :
          (x : Exit) → InFlow (switch_exit x st) d → InFlow (switch_exit x (enter_case entry st)) d
      keeps falls h = InFlow-union_left st.cur (some entry) d h
      keeps breaks h = h
      keeps continues h = h
      keeps returns h = h
  exit-eval_sections (default_label rest) x entry st pass out d ne h =
      exit-eval_sections rest x entry (enter_default entry st) pass out d ne (keeps x h)
    where
      keeps :
          (x : Exit)
          → InFlow (switch_exit x st) d
          → InFlow (switch_exit x (enter_default entry st)) d
      keeps falls h = InFlow-union_left st.cur (some entry) d h
      keeps breaks h = h
      keeps continues h = h
      keeps returns h = h
  exit-eval_sections (section_stmt s rest) x entry st pass out d ne h =
      let (flow, out') = eval_stmt a s (unwrap_or st.cur entry) pass out in
      exit-eval_sections rest x entry (after_section st flow) pass out' d ne
        (exit-after_section_old x st flow d ne h)

  pub has_default-eval_sections :
      (ss : Sections) (entry : Mask) (st : SwitchState) (pass : Pass) (out : List Mask)
      → has_default ss ≡ false
      → st.has_default ≡ false
      → (eval_sections a ss entry st pass out).0.has_default ≡ false
  unfolding eval_sections enter_case enter_default after_section has_default
  has_default-eval_sections close entry st pass out n h = h
  has_default-eval_sections (case_label v rest) entry st pass out n h =
      has_default-eval_sections rest entry (enter_case entry st) pass
        (record_field a v entry pass out) n h
  has_default-eval_sections (default_label rest) entry st pass out n h = cc
  has_default-eval_sections (section_stmt s rest) entry st pass out n h =
      let (flow, out') = eval_stmt a s (unwrap_or st.cur entry) pass out in
      has_default-eval_sections rest entry (after_section st flow) pass out' n h
