-- ===== src/Tests/Edits.antt =====
-- An extraction from `{ f(1);`, and one from `{f(1);`.
use witcherscript_language.Base.{◌+◌, ◌≡◌, some, List, [], ◌∷◌, ◌++◌, codes, arith}
use witcherscript_language.LineIndex.Utf.{bytes, byte_len, len_utf8}
use witcherscript_language.EditPlan.Defs.{
  Splice, delete_statement, Extraction, apply_splices, apply, insert_and_replace, applied_offset,
}
use witcherscript_language.EditPlan.Delete.{OnlySpaces, delete_statement-OnlySpaces}
use witcherscript_language.EditPlan.Chunks.{
  Chunk, source_of, result_of, edits_of, apply_splices-edits_of,
}
use witcherscript_language.EditPlan.Cursor.{
  insertion, applied_offset-edits_of, insert_and_replace-cursor, apply_splices-adjacent,
}

abbrev chunks : List Chunk
chunks =
    record { gap = codes "a"; old = codes "bc"; new = codes "x" }
    ∷ record { gap = codes "d"; old = []; new = codes "yz" }
    ∷ []

apply_splices-edits_of_example :
    apply_splices (source_of chunks (codes "e")) (edits_of chunks 0) ≡ some (codes "axdyze")
unfolding byte_len len_utf8
apply_splices-edits_of_example =
    apply_splices-edits_of chunks (codes "e") ((omega arith, tt), (tt, tt))

applied_offset-edits_of_example :
    applied_offset (edits_of chunks 0 ++ []) (byte_len (source_of chunks (codes "e")))
    ≡ some (byte_len (result_of chunks (codes "e")))
applied_offset-edits_of_example = applied_offset-edits_of chunks (codes "e") [] tt

insert_and_replace-cursor_example :
    (x : Extraction) × (insert_and_replace
        (byte_len (codes "{"))
        (codes "i;")
        (record {
          start = byte_len (codes "{") + byte_len (codes " ");
          end = byte_len (codes "{") + byte_len (codes " ") + byte_len (codes "f(1)");
        })
        (codes "v")
        0
        (codes "v")
      ≡ some x)
    × (apply x.plan (codes "{ f(1);") ≡ some (codes "{i; v;"))
    × (x.cursor ≡ byte_len (codes "{i; ") + 0)
insert_and_replace-cursor_example =
    insert_and_replace-cursor (codes "{") (codes "i;") (codes " ") (codes "f(1)") (codes "v")
      (codes ";") 0 (codes "v") (unfold byte_len len_utf8 in omega arith)
      (unfold byte_len len_utf8 in omega arith)

apply_splices-adjacent_example :
    apply_splices (codes "{f(1);") (
      insertion
        (byte_len (codes "{"))
        (codes "v=f(1);")
        (byte_len (codes "{"))
        (byte_len (codes "{") + byte_len (codes "f(1)"))
        (codes "v"))
    ≡ some (codes "{v1);f(1);")
apply_splices-adjacent_example =
    apply_splices-adjacent (codes "{") (codes "v=f(") (codes "1);") (codes "f(1)") (codes "v")
      (codes ";") (unfold byte_len len_utf8 in omega arith)

delete_statement-OnlySpaces_example :
    (s : Splice) × (delete_statement (codes "a;  x;") (record { start = 4; end = 6 }) ≡ some s)
    × (s.text ≡ [])
    × OnlySpaces (bytes (codes "a;  x;")) (record { start = 4; end = 6 }) s.range
delete_statement-OnlySpaces_example =
    delete_statement-OnlySpaces (codes "a;  x;") (record { start = 4; end = 6 })
      (unfold byte_len len_utf8 in omega arith)
