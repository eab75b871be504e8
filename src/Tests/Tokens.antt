-- ===== src/Tests/Tokens.antt =====
-- Three tokens of which the middle one changes, and one is added.
use witcherscript_language.Base.{ℕ, ◌≡◌, refl, List, [], ◌∷◌, arith}
use witcherscript_language.SemanticTokens.Defs.{
  SemanticToken, semantic_token_structs, count_same, wire_u32, semantic_token_edits,
}
use witcherscript_language.SemanticTokens.Applied.{
  encode, apply_edits, apply_edits-semantic_token_edits,
}

abbrev token : ℕ → ℕ → SemanticToken
token line size = record {
  delta_line = line;
  delta_start = 4;
  length = size;
  token_type = 1;
  token_modifiers_bitset = 0;
}

abbrev before : List SemanticToken
before = token 0 3 ∷ (token 1 5 ∷ (token 1 7 ∷ []))

abbrev after : List SemanticToken
after = token 0 3 ∷ (token 1 6 ∷ (token 2 2 ∷ (token 1 7 ∷ [])))

one_edit :
    semantic_token_edits (encode before) (encode after)
    ≡ record { start = 5; delete_count = 5; edit_data = token 1 6 ∷ (token 2 2 ∷ []) } ∷ []
unfolding semantic_token_edits semantic_token_structs count_same wire_u32
one_edit = refl

apply_edits-semantic_token_edits_example :
    apply_edits (semantic_token_edits (encode before) (encode after)) (encode before) ≡ encode after
apply_edits-semantic_token_edits_example =
    apply_edits-semantic_token_edits before after (omega arith)
