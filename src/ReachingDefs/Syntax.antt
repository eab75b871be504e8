-- ===== src/ReachingDefs/Syntax.antt =====
-- The statements of a function body as the analysis reads them: one constructor for each node kind
-- that `eval_stmt` tells apart, with the byte span of the node and the fields that it looks up.
-- A field that the parser may leave out is an `Option`, or `absent`.
use witcherscript_language.Base.{ℕ, Bool, Option, ◌&&◌, leb}

-- `Range<usize>`, and the start and end byte of a node
pub record Span : Type 0 where
  pub start : ℕ
  pub end : ℕ

unfoldable pub within : Span → Span → Bool
within inner outer = leb outer.start inner.start && leb inner.end outer.end

pub data Leaf : Type 0 where
  local_var_decl_stmt expr_stmt delete_stmt : Leaf

mutual
  pub data Stmt : Type 0 where
    func_block : Stmts → Stmt
    leaf : Leaf → Span → Stmt
    return_stmt : Span → Stmt
    break_stmt : Stmt
    continue_stmt : Stmt
    if_stmt : Option Span → Body → Body → Stmt
    while_stmt : Option Span → Body → Stmt
    do_while_stmt : Option Span → Body → Stmt
    for_stmt : Option Span → Option Span → Option Span → Body → Stmt
    switch_stmt : Option Span → Sections → Stmt
    switch_no_block : Option Span → Stmt
    nop : Stmt
    unmodelled : Span → Stmt

  pub data Stmts : Type 0 where
    stop : Stmts
    then_stmt : Stmt → Stmts → Stmts

  -- an optional statement in a field of a node
  pub data Body : Type 0 where
    absent : Body
    present : Stmt → Body

  -- the named children of a switch block
  pub data Sections : Type 0 where
    close : Sections
    case_label : Option Span → Sections → Sections
    default_label : Sections → Sections
    section_stmt : Stmt → Sections → Sections
