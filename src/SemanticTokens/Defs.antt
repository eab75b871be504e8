-- ===== src/SemanticTokens/Defs.antt =====
-- The difference of two encodings of a file's tokens
-- (src/bin/witcherscript-lsp/semantic_tokens_cache.rs). A chunk of five numbers is the token that it
-- encodes.
use witcherscript_language.Base.{
  ℕ, zero, suc, ◌-◌, ◌*◌, ◌/◌, ◌^◌, min, ◌==◌, Bool, ◌&&◌, List, [], ◌∷◌, reverse, length, take,
  drop, if◌then◌else◌,
}

pub record SemanticToken : Type 0 where
  pub delta_line : ℕ
  pub delta_start : ℕ
  pub length : ℕ
  pub token_type : ℕ
  pub token_modifiers_bitset : ℕ

pub record SemanticTokensEdit : Type 0 where
  pub start : ℕ
  pub delete_count : ℕ
  pub edit_data : List SemanticToken

-- `chunks_exact(5)`
unfoldable pub semantic_token_structs : List ℕ → List SemanticToken
semantic_token_structs (a ∷ (b ∷ (c ∷ (d ∷ (e ∷ numbers))))) =
    record {
      delta_line = a;
      delta_start = b;
      length = c;
      token_type = d;
      token_modifiers_bitset = e;
    }
    ∷ semantic_token_structs numbers
semantic_token_structs _ = []

abbrev pub token_eq : SemanticToken → SemanticToken → Bool
token_eq s t =
    s.delta_line == t.delta_line
    && s.delta_start == t.delta_start
    && s.length == t.length
    && s.token_type == t.token_type
    && s.token_modifiers_bitset == t.token_modifiers_bitset

-- `zip(..).take(limit).take_while(|(a, b)| a == b).count()`; without a limit where the lists end
unfoldable pub count_same : ℕ → List SemanticToken → List SemanticToken → ℕ
count_same zero _ _ = 0
count_same (suc limit) (s ∷ ss) (t ∷ ts) =
    let later = count_same limit ss ts in if token_eq s t then suc later else 0
count_same (suc limit) _ _ = 0

unfoldable pub wire_u32 : ℕ → ℕ
wire_u32 n = min n (2 ^ 32 - 1)

unfoldable pub semantic_token_edits : List ℕ → List ℕ → List SemanticTokensEdit
unfolding count_same semantic_token_structs wire_u32
semantic_token_edits previous current =
    let previous_tokens : ℕ = length previous / 5 in
    let current_tokens : ℕ = length current / 5 in
    let prev_chunks : List SemanticToken = semantic_token_structs previous in
    let cur_chunks : List SemanticToken = semantic_token_structs current in
    let prefix : ℕ = count_same (length prev_chunks) prev_chunks cur_chunks in
    let max_suffix : ℕ = min previous_tokens current_tokens - prefix in
    let suffix : ℕ = count_same max_suffix (reverse prev_chunks) (reverse cur_chunks) in
    if previous_tokens == current_tokens && prefix == previous_tokens
    then []
    else record {
      start = wire_u32 (prefix * 5);
      delete_count = wire_u32 ((previous_tokens - prefix - suffix) * 5);
      edit_data =
          semantic_token_structs (drop (prefix * 5) (take (length current - suffix * 5) current));
    }
      ∷ []
