-- ===== src/Tests/Reaching.antt =====
-- A body of a declaration, an assignment and a read, and statements outside `Supported`.
use witcherscript_language.Base.{
  ℕ, zero, Bool, leb, filter, ◌≡◌, refl, true, false, none, some, List, [], ◌∷◌,
}
use witcherscript_language.ReachingDefs.Syntax.{
  Span, Body, func_block, present, Stmts, leaf, if_stmt, do_while_stmt, local_var_decl_stmt,
  expr_stmt, stop, then_stmt, absent,
}
use witcherscript_language.ReachingDefs.Masks.{bit, Mask, empty, sole_def}
use witcherscript_language.ReachingDefs.Analyzer.{
  Analyzer, eval_stmt, latest_in, record_reads, record_all,
}
use witcherscript_language.ReachingDefs.Semantics.{Run, effect, seen, leaf_runs, falls}
use witcherscript_language.ReachingDefs.Reads.{in_rest, in_first, in_leaf}
use witcherscript_language.ReachingDefs.Results.{
  reaching_defs, build_defs, Decl, WriteSite, assign_target,
}
use witcherscript_language.ReachingDefs.Correct.{reaching_defs_sound}
use witcherscript_language.ReachingDefs.Missed.{
  continue_body, do_while-misses_continue, if-misses_cond_write,
}

abbrev span : ℕ → ℕ → Span
span s e = record { start = s; end = e }

-- `int x = a;` at 0..10, `x = b;` at 20..26, `use(x);` at 30..37
abbrev decl : Decl
decl = record { node = span 0 10; init_value = some (span 8 9) }

abbrev write : WriteSite
write = assign_target (record {
  node = span 20 21;
  assign = some (record { op_is_direct = true; right = some (span 24 25) });
  expr_stmt = some (span 20 26);
})

abbrev body : Stmts
body =
    then_stmt (leaf local_var_decl_stmt (span 0 10))
      (then_stmt (leaf expr_stmt (span 20 26)) (then_stmt (leaf expr_stmt (span 30 37)) stop))

abbrev reads : List Span
reads = span 34 35 ∷ []

straight_line : (reaching_defs body decl 1 (write ∷ []) reads).per_read ≡ (span 34 35, some 1) ∷ []
unfolding reaching_defs eval_stmt latest_in record_all sole_def
straight_line = refl

-- An assignment lands behind its node's statement, the declaration behind itself.
abbrev lands_before : ℕ → Span → Bool
lands_before zero read = leb 10 read.start
lands_before _ read = leb 26 read.start

-- the read of `x` in the third statement sees the second
reaching_defs_sound_example : ◌≡◌ {A = ℕ} 1 1
unfolding latest_in effect seen build_defs filter
reaching_defs_sound_example =
    reaching_defs_sound body decl 1 (write ∷ []) reads 0 (span 34 35) (span 30 37) 1 1 (some 1)
      lands_before (tt, (tt, (tt, tt)))
      (unfold reaching_defs eval_stmt latest_in record_all sole_def in refl) refl (refl, (refl, tt))
      (in_rest leaf_runs (in_rest leaf_runs (in_first in_leaf))) refl

abbrev two_writes : Analyzer
two_writes = record { defs = build_defs decl 1 (write ∷ []); reads = [] }

do_while-misses_continue_example :
    Run two_writes.defs
      (do_while_stmt (some (span 30 31)) (continue_body (span 12 13) (span 0 10) (span 20 26)))
      none
      falls
      (some 0)
    × ((eval_stmt two_writes
          (do_while_stmt (some (span 30 31)) (continue_body (span 12 13) (span 0 10) (span 20 26)))
          empty
          record_reads
          []).0.normal
        ≡ some (bit 1))
do_while-misses_continue_example =
    do_while-misses_continue two_writes (span 30 31) (span 12 13) (span 0 10) (span 20 26) 0 1
      (unfold latest_in build_defs in refl) (unfold latest_in build_defs in refl)
      (unfold latest_in build_defs in refl) (unfold latest_in build_defs in refl) none empty
      record_reads []

-- `{ use(x); }`
abbrev used : Body
used = present (func_block (then_stmt (leaf expr_stmt (span 30 37)) stop))

if-misses_cond_write_example :
    Run two_writes.defs (if_stmt (some (span 20 26)) used absent) (some 0) falls (some 1)
    × (m : Mask) × ((eval_stmt two_writes
          (if_stmt (some (span 20 26)) used absent)
          (bit 0)
          record_reads
          []).0.normal
        ≡ some m)
    × (m 1 ≡ false)
if-misses_cond_write_example =
    if-misses_cond_write two_writes (span 20 26) used absent 1 (some 0) (bit 0) record_reads []
      (unfold latest_in build_defs in refl) (unfold latest_in build_defs in (refl, tt)) tt refl
