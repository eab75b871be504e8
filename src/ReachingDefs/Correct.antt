-- ===== src/ReachingDefs/Correct.antt =====
-- The masks that the whole analysis records, and the definitions that `reaching_defs` gives to reads
-- (src/resolve/reaching_defs.rs).
use witcherscript_language.Base.{
  sym, subst, ◌∙◌, Bool, ℕ, zero, suc, ◌<◌, ◌≤◌, ◌≡◌, true, inl, inr, Option, none, some, List, [],
  ◌∷◌, length, get_elem?, unwrap_or, ltb, arith, Bool-cases, ltb→le,
}
use witcherscript_language.ReachingDefs.Syntax.{
  Span, within, Stmt, Stmts, Body, Sections, func_block, leaf, return_stmt, break_stmt,
  continue_stmt, if_stmt, while_stmt, do_while_stmt, for_stmt, switch_stmt, switch_no_block, nop,
  unmodelled, stop, then_stmt, absent, present, close, case_label, default_label, section_stmt,
}
use witcherscript_language.ReachingDefs.Masks.{Mask, empty, union, full, max_defs, sole_def}
use witcherscript_language.ReachingDefs.Analyzer.{
  Analyzer, SwitchState, record_reads, record_field, flow_pass, eval_stmt, eval_stmts, eval_body,
  eval_sections, switch_start, after_section, enter_case, enter_default, eval_leaf, poison,
}
use witcherscript_language.ReachingDefs.Semantics.{Held, falls, effect_field, the_body}
use witcherscript_language.ReachingDefs.Reads.{
  ReadsStmts, ReadsSections, ReadsEnter, in_block, in_leaf, in_return, switch_head, in_switch,
  empty_head, in_unmodelled, in_first, in_rest, in_body, behind_case, behind_default, in_section,
  in_later_section, case_value, from_case, from_default, not_case, not_default, not_section,
}
use witcherscript_language.ReachingDefs.Holds.{
  In, InFlow, In-unwrap, InFlow-union_left, InFlow-union_right,
}
use witcherscript_language.ReachingDefs.Supported.{
  StmtsSupported, Supported, BodySupported, SectionsSupported,
}
use witcherscript_language.ReachingDefs.Sequences.{exit-after_section_new}
use witcherscript_language.ReachingDefs.Soundness.{eval_stmt-Covers, eval_body-Covers, In-behind}
use witcherscript_language.ReachingDefs.Growth.{
  Recorded, Recorded-grow, Recorded-region, Grows-eval_stmts, Grows-eval_body, Grows-eval_sections,
}
use witcherscript_language.ReachingDefs.Recording.{
  Records, Recorded-field, if_Records, while-Records, do_while-Records, for-Records,
}
use witcherscript_language.ReachingDefs.Bounds.{ReadsStmts-Below}
use witcherscript_language.ReachingDefs.Sole.{sole_def_unique}
use witcherscript_language.ReachingDefs.Results.{
  Decl, WriteSite, build_defs, zeros, per_read, undecided, reaching_defs,
}
use witcherscript_language.ReachingDefs.Order.{Undisturbed, seen-Undisturbed}
use witcherscript_language.ReachingDefs.Semantics.{seen}

module _ (a : Analyzer) (bounded : length a.defs ≤ max_defs) where
  mutual
    unfolding eval_stmt eval_leaf poison enter_case enter_default

    eval_stmt-Records : (s : Stmt) → Supported a.defs s → Records a (present s) (eval_stmt a s)
    eval_stmt-Records (func_block s) ok d d' r state out (in_body (in_block q)) h =
        eval_stmts_records s ok d d' r (some state) none none none out q h
    eval_stmt-Records (leaf k g) ok d d' r state out (in_body in_leaf) h =
        Recorded-region a r state out d h
    eval_stmt-Records (return_stmt g) ok d d' r state out (in_body in_return) h =
        Recorded-region a r state out d h
    eval_stmt-Records break_stmt ok d d' r state out (in_body q) h = elim q [ ]
    eval_stmt-Records continue_stmt ok d d' r state out (in_body q) h = elim q [ ]
    eval_stmt-Records (if_stmt c t e) (pure, ot, oe) d d' r state out q h =
        if_Records a c t e (eval_body a t) (eval_body a e) (Grows-eval_body a t)
          (Grows-eval_body a e) (eval_body-Records t ot) (eval_body-Records e oe) pure d d' r state
          out q h
    eval_stmt-Records (while_stmt c b) (pure, ob) d d' r state out q h =
        while-Records a b (eval_body a b) (eval_body-Covers a b ob) (Grows-eval_body a b)
          (eval_body-Records b ob) c pure d d' r state out q h
    eval_stmt-Records (do_while_stmt c b) (pure, ob, never) d d' r state out q h =
        do_while-Records a b (eval_body a b) (eval_body-Covers a b ob) (Grows-eval_body a b)
          (eval_body-Records b ob) c pure d d' r state out q h
    eval_stmt-Records (for_stmt i c p b) (pure, ob) d d' r state out q h =
        for-Records a b (eval_body a b) (eval_body-Covers a b ob) (Grows-eval_body a b)
          (eval_body-Records b ob) i c p pure d d' r state out q h
    eval_stmt-Records (switch_stmt c ss) ok d d' r state out (in_body switch_head) h =
        let o₀ = record_field a (some r) state record_reads out in
        Recorded-grow a.reads o₀ _ r d (Grows-eval_sections a ss state switch_start record_reads o₀)
          (Recorded-field a r state out d h)
    eval_stmt-Records (switch_stmt c ss) (pure, os) d d' r state out (in_body (in_switch q)) h =
        enter_records ss os (effect_field a.defs c d) d' r state switch_start
          (record_field a c state record_reads out) q (In-behind a c state d pure h)
    eval_stmt-Records (switch_no_block c) ok d d' r state out (in_body empty_head) h =
        Recorded-field a r state out d h
    eval_stmt-Records nop ok d d' r state out (in_body q) h = elim q [ ]
    eval_stmt-Records (unmodelled g) ok d d' r state out (in_body (in_unmodelled {k = k} l)) h =
        Recorded-region a r full out (some k) (ground arith)

    eval_stmts_records :
        (ss : Stmts)
        → StmtsSupported a.defs ss
        → (d d' : Held) (r : Span) (n b c v : Option Mask) (out : List Mask)
        → ReadsStmts a.defs ss d r d'
        → InFlow n d
        → Recorded a.reads
            (eval_stmts a ss
              (record { normal = n; breaks = b; continues = c; returns = v })
              record_reads
              out).1
            r
            d'
    eval_stmts_records stop ok d d' r n b c v out q h = elim q [ ]
    eval_stmts_records (then_stmt s rest) ok d d' r none b c v out q h = absurd h
    eval_stmts_records (then_stmt s rest) (os, or) d d' r (some cur) b c v out (in_first q) h =
        let (next, o) = eval_stmt a s cur record_reads out in
        Recorded-grow a.reads o _ r d'
          (Grows-eval_stmts a rest next.normal (union b next.breaks) (union c next.continues)
            (union v next.returns) record_reads o)
          (eval_stmt-Records s os d d' r cur out (in_body q) h)
    eval_stmts_records (then_stmt s rest) (os, or) d d' r (some cur) b c v out
          (in_rest {d₁ = d₁} run q) h =
        let (next, o) = eval_stmt a s cur record_reads out in
        eval_stmts_records rest or d₁ d' r next.normal (union b next.breaks)
          (union c next.continues) (union v next.returns) o q
          (eval_stmt-Covers a s os d d₁ falls cur record_reads out (the_body run) h)

    eval_body-Records : (b : Body) → BodySupported a.defs b → Records a b (eval_body a b)
    eval_body-Records absent ok d d' r state out q h = elim q [ ]
    eval_body-Records (present s) ok d d' r state out q h =
        eval_stmt-Records s ok d d' r state out q h

    sections_records :
        (ss : Sections)
        → SectionsSupported a.defs ss
        → (d d' : Held) (r : Span) (entry : Mask) (st : SwitchState) (out : List Mask)
        → ReadsSections a.defs ss d r d'
        → InFlow st.cur d
        → Recorded a.reads (eval_sections a ss entry st record_reads out).1 r d'
    sections_records close ok d d' r entry st out q h = elim q [ ]
    sections_records (case_label v rest) ok d d' r entry st out (behind_case q) h =
        sections_records rest ok d d' r entry (enter_case entry st)
          (record_field a v entry record_reads out) q (InFlow-union_left st.cur (some entry) d h)
    sections_records (default_label rest) ok d d' r entry st out (behind_default q) h =
        sections_records rest ok d d' r entry (enter_default entry st) out q
          (InFlow-union_left st.cur (some entry) d h)
    sections_records (section_stmt s rest) (os, or) d d' r entry st out (in_section q) h =
        let (flow, o) = eval_stmt a s (unwrap_or st.cur entry) record_reads out in
        Recorded-grow a.reads o _ r d'
          (Grows-eval_sections a rest entry (after_section st flow) record_reads o)
          (eval_stmt-Records s os d d' r (unwrap_or st.cur entry) out (in_body q)
            (In-unwrap st.cur entry d h))
    sections_records (section_stmt s rest) (os, or) d d' r entry st out
          (in_later_section {d₁ = d₁} run q) h =
        let (flow, o) = eval_stmt a s (unwrap_or st.cur entry) record_reads out in
        sections_records rest or d₁ d' r entry (after_section st flow) o q (
          exit-after_section_new falls st flow d₁ (
            eval_stmt-Covers a s os d d₁ falls (unwrap_or st.cur entry) record_reads out
              (the_body run) (In-unwrap st.cur entry d h)))

    enter_records :
        (ss : Sections)
        → SectionsSupported a.defs ss
        → (d d' : Held) (r : Span) (entry : Mask) (st : SwitchState) (out : List Mask)
        → ReadsEnter a.defs ss d r d'
        → In entry d
        → Recorded a.reads (eval_sections a ss entry st record_reads out).1 r d'
    enter_records close ok d d' r entry st out q h = elim q [ ]
    enter_records (case_label v rest) ok d d' r entry st out case_value h =
        let o = record_field a (some r) entry record_reads out in
        Recorded-grow a.reads o _ r d
          (Grows-eval_sections a rest entry (enter_case entry st) record_reads o)
          (Recorded-field a r entry out d h)
    enter_records (case_label v rest) ok d d' r entry st out (from_case q) h =
        sections_records rest ok d d' r entry (enter_case entry st)
          (record_field a v entry record_reads out) q (InFlow-union_right st.cur (some entry) d h)
    enter_records (default_label rest) ok d d' r entry st out (from_default q) h =
        sections_records rest ok d d' r entry (enter_default entry st) out q
          (InFlow-union_right st.cur (some entry) d h)
    enter_records (case_label v rest) ok d d' r entry st out (not_case q) h =
        enter_records rest ok d d' r entry (enter_case entry st)
          (record_field a v entry record_reads out) q h
    enter_records (default_label rest) ok d d' r entry st out (not_default q) h =
        enter_records rest ok d d' r entry (enter_default entry st) out q h
    enter_records (section_stmt s rest) (os, or) d d' r entry st out (not_section q) h =
        let (flow, o) = eval_stmt a s (unwrap_or st.cur entry) record_reads out in
        enter_records rest or d d' r entry (after_section st flow) o q h

-- the masks behind the result
per_read-sole :
    (rs : List Span) (out : List Mask) (n : ℕ) (read region : Span) (i k : ℕ)
    → get_elem? (per_read rs out) n ≡ some (read, some i)
    → within read region ≡ true
    → Recorded rs out region (some k)
    → k < max_defs
    → k ≡ i
unfolding per_read
per_read-sole [] out n read region i k e w h l = cc
per_read-sole (r ∷ rs) [] n read region i k e w h l = cc
per_read-sole (r ∷ rs) (m ∷ ms) zero read region i k e w h l =
    let same : r ≡ read = ground arith in
    let sole : sole_def m ≡ some i = ground arith in sole_def_unique m i k sole l (h.0 (rw same w))
per_read-sole (r ∷ rs) (m ∷ ms) (suc n) read region i k e w h l =
    per_read-sole rs ms n read region i k e w h.1 l

undecided-none :
    (rs : List Span) (n : ℕ) (read : Span) (i : ℕ)
    → get_elem? (undecided rs) n ≡ some (read, some i)
    → ⊥
unfolding undecided
undecided-none [] n read i e = cc
undecided-none (r ∷ rs) zero read i e = ground arith
undecided-none (r ∷ rs) (suc n) read i e = undecided-none rs n read i e

-- If `reaching_defs` gives a read its definition `i`, then in every run of a supported body in which
-- a region around the read is evaluated, and no definition of that region takes effect before the
-- read, a definition that the read sees is `i`.
pub reaching_defs_sound :
    (body : Stmts) (decl : Decl) (names_len : ℕ) (mutations : List WriteSite) (reads : List Span)
    (n : ℕ) (read region : Span) (i k : ℕ) (d : Held) (lands_before : ℕ → Span → Bool)
    → StmtsSupported (build_defs decl names_len mutations) body
    → get_elem? (reaching_defs body decl names_len mutations reads).per_read n ≡ some (read, some i)
    → within read region ≡ true
    → Undisturbed (build_defs decl names_len mutations) lands_before region read
    → ReadsStmts (build_defs decl names_len mutations) body none region d
    → seen (build_defs decl names_len mutations) lands_before region read d ≡ some k
    → k ≡ i
unfolding reaching_defs
reaching_defs_sound body decl names_len mutations reads n read region i k d lands_before ok e w u q
      see =
    let all_defs = build_defs decl names_len mutations in
    let held : d ≡ some k = sym (seen-Undisturbed all_defs lands_before region read d u) ∙ see in
    let run : ReadsStmts all_defs body none region (some k) =
      subst (ReadsStmts all_defs body none region) held q in
    elim (Bool-cases (ltb max_defs (length all_defs))) [
      | inl over ↦ absurd (undecided-none reads n read i (rw over at e))
      | inr fits ↦
          let bounded = ltb→le max_defs (length all_defs) fits in
          let a : Analyzer = record { defs = all_defs; reads = reads } in
          let l : k < length all_defs = ReadsStmts-Below all_defs run tt in
          per_read-sole reads (eval_stmts a body (flow_pass empty) record_reads (zeros reads)).1 n
            read region i k (rw fits at e) w
            (eval_stmts_records a bounded body ok none (some k) region (some empty) none none none
              (zeros reads) run tt)
            (omega arith)
    ]
