-- ===== src/SemanticTokens/Shared.antt =====
-- The tokens that two lists share in front, as `count_same` counts them
-- (src/bin/witcherscript-lsp/semantic_tokens_cache.rs).
use witcherscript_language.Base.{
  ℕ, zero, suc, ◌≤◌, ◌≡◌, refl, sym, ap, ◌∙◌, true, List, [], ◌∷◌, ◌++◌, length, Bool-cases, inl,
  inr, arith,
}
use witcherscript_language.SemanticTokens.Defs.{SemanticToken, token_eq, count_same}

token_eq→eq : (s t : SemanticToken) → token_eq s t ≡ true → s ≡ t
token_eq→eq s t e =
    let a : s.delta_line ≡ t.delta_line = ground arith in
    let b : s.delta_start ≡ t.delta_start = ground arith in
    let c : s.length ≡ t.length = ground arith in
    let d : s.token_type ≡ t.token_type = ground arith in
    let f : s.token_modifiers_bitset ≡ t.token_modifiers_bitset = ground arith in
    λ i. record {
      delta_line = a i;
      delta_start = b i;
      length = c i;
      token_type = d i;
      token_modifiers_bitset = f i;
    }

-- two lists with as many equal tokens in front
pub record Shares (n : ℕ) (ss ts : List SemanticToken) : Type 0 where
  pub front : List SemanticToken
  pub left : List SemanticToken
  pub right : List SemanticToken
  pub size : length front ≡ n
  pub first : ss ≡ front ++ left
  pub second : ts ≡ front ++ right

pub empty_Shares : (ss ts : List SemanticToken) → Shares 0 ss ts
empty_Shares ss ts = record {
  front = [];
  left = ss;
  right = ts;
  size = refl;
  first = refl;
  second = refl;
}

pub count_same-Shares :
    (limit : ℕ) (ss ts : List SemanticToken) → Shares (count_same limit ss ts) ss ts
unfolding count_same
count_same-Shares zero ss ts = empty_Shares ss ts
count_same-Shares (suc limit) [] ts = empty_Shares [] ts
count_same-Shares (suc limit) (s ∷ ss) [] = empty_Shares (s ∷ ss) []
count_same-Shares (suc limit) (s ∷ ss) (t ∷ ts) = elim (Bool-cases (token_eq s t)) [
  | inl q ↦
      let later = count_same-Shares limit ss ts in
      rw q (record {
        front = s ∷ later.front;
        left = later.left;
        right = later.right;
        size = omega (arith, later.size);
        first = ap (λ r. s ∷ r) later.first;
        second =
            ap (λ r. t ∷ r) later.second
            ∙ ap (λ r. r ∷ (later.front ++ later.right)) (sym (token_eq→eq s t q));
      })
  | inr q ↦ rw q (empty_Shares (s ∷ ss) (t ∷ ts))
]

pub count_same_le : (limit : ℕ) (ss ts : List SemanticToken) → count_same limit ss ts ≤ limit
unfolding count_same
count_same_le zero ss ts = omega arith
count_same_le (suc limit) [] ts = omega arith
count_same_le (suc limit) (s ∷ ss) [] = omega arith
count_same_le (suc limit) (s ∷ ss) (t ∷ ts) = ground (arith, count_same_le limit ss ts)
