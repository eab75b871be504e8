-- ===== src/SemanticTokens/Applied.antt =====
-- The edits against their meaning in the protocol: a client replaces `delete_count` numbers at
-- `start` by those of the new tokens (src/bin/witcherscript-lsp/semantic_tokens_cache.rs).
use witcherscript_language.Base.{
  ℕ, zero, suc, ◌+◌, ◌-◌, ◌*◌, ◌/◌, ◌^◌, ◌≤◌, min, ◌==◌, ==→≡, ◌≡◌, refl, sym, ap, ◌∙◌, subst, Bool,
  true, false, ◌&&◌, List, [], ◌∷◌, ◌++◌, append_assoc, reverse, length, length-append, take, drop,
  Bool-cases, inl, inr, arith,
}
use mathlib.Core.List.{reverse-append, reverse-reverse}
use witcherscript_language.SemanticTokens.Defs.{
  SemanticToken, SemanticTokensEdit, semantic_token_structs, count_same, wire_u32,
  semantic_token_edits,
}
use witcherscript_language.SemanticTokens.Shared.{Shares, count_same-Shares, count_same_le}

-- the five numbers of each token
abbrev pub encode : List SemanticToken → List ℕ
encode [] = []
encode (t ∷ ts) =
    t.delta_line
    ∷ (t.delta_start ∷ (t.length ∷ (t.token_type ∷ (t.token_modifiers_bitset ∷ encode ts))))

abbrev pub apply_edits : List SemanticTokensEdit → List ℕ → List ℕ
apply_edits [] numbers = numbers
apply_edits (e ∷ es) numbers =
    apply_edits es
      (take e.start numbers ++ (encode e.edit_data ++ drop (e.start + e.delete_count) numbers))

structs-encode : (ts : List SemanticToken) → semantic_token_structs (encode ts) ≡ ts
unfolding semantic_token_structs
structs-encode [] = refl
structs-encode (t ∷ ts) = ap (λ r. t ∷ r) (structs-encode ts)

length-encode : (ts : List SemanticToken) → length (encode ts) ≡ length ts * 5
length-encode [] = omega arith
length-encode (t ∷ ts) = omega (arith, length-encode ts)

encode-append : (s t : List SemanticToken) → encode (s ++ t) ≡ encode s ++ encode t
encode-append [] t = refl
encode-append (x ∷ s) t =
    ap
      (λ r.
        x.delta_line
        ∷ (x.delta_start ∷ (x.length ∷ (x.token_type ∷ (x.token_modifiers_bitset ∷ r)))))
      (encode-append s t)

length-reverse : (ts : List SemanticToken) → length (reverse ts) ≡ length ts
length-reverse [] = refl
length-reverse (t ∷ ts) =
    let split : reverse (t ∷ ts) ≡ reverse ts ++ (t ∷ []) = reverse-append (t ∷ []) ts in
    omega (arith, ap length split, length-append (reverse ts) (t ∷ []), length-reverse ts)

take-append : (xs ys : List ℕ) (n : ℕ) → n ≡ length xs → take n (xs ++ ys) ≡ xs
take-append [] ys n e = rw e refl
take-append (x ∷ xs) ys zero e = absurd (omega (arith, e))
take-append (x ∷ xs) ys (suc n) e = ap (λ r. x ∷ r) (take-append xs ys n (omega (arith, e)))

drop-append : (xs ys : List ℕ) (n : ℕ) → n ≡ length xs → drop n (xs ++ ys) ≡ ys
drop-append [] ys n e = rw e refl
drop-append (x ∷ xs) ys zero e = absurd (omega (arith, e))
drop-append (x ∷ xs) ys (suc n) e = drop-append xs ys n (omega (arith, e))

wire_u32_same : (n : ℕ) → n ≤ 2 ^ 32 - 1 → wire_u32 n ≡ n
unfolding wire_u32
wire_u32_same n h = omega arith

-- of two splittings of a list, the shorter front begins the longer one
begins :
    (f b d t : List SemanticToken)
    → f ++ b ≡ d ++ t
    → length f ≤ length d
    → (g : List SemanticToken) × (d ≡ f ++ g)
begins [] b d t e h = (d, refl)
begins (x ∷ f) b [] t e h = absurd (omega arith)
begins (x ∷ f) b (y ∷ d) t e h =
    let heads : x ≡ y = cc in
    let tails : f ++ b ≡ d ++ t = cc in
    let (g, q) = begins f b d t tails (omega arith) in
    (g, ap (λ r. y ∷ r) q ∙ ap (λ z. z ∷ (f ++ g)) (sym heads))

-- the reversed lists share the back
back : (xs t c : List SemanticToken) → reverse xs ≡ t ++ c → xs ≡ reverse c ++ reverse t
back xs t c e = sym (reverse-reverse xs) ∙ ap reverse e ∙ reverse-append t c

-- one edit between a shared front and a shared back
replaced :
    (ps cs front rear deleted inserted : List SemanticToken)
    → ps ≡ front ++ (deleted ++ rear)
    → cs ≡ front ++ (inserted ++ rear)
    → (start count : ℕ) → start ≡ length front * 5
    → count ≡ length deleted * 5
    → take start (encode ps) ++ (encode inserted ++ drop (start + count) (encode ps)) ≡ encode cs
replaced ps cs front rear deleted inserted a b start count e f =
    let left : encode ps ≡ encode front ++ (encode deleted ++ encode rear) =
      ap encode a
      ∙ encode-append front (deleted ++ rear)
      ∙ ap (λ r. encode front ++ r) (encode-append deleted rear) in
    let right : encode cs ≡ encode front ++ (encode inserted ++ encode rear) =
      ap encode b
      ∙ encode-append front (inserted ++ rear)
      ∙ ap (λ r. encode front ++ r) (encode-append inserted rear) in
    let taken : take start (encode ps) ≡ encode front =
      ap (take start) left
      ∙ take-append (encode front) (encode deleted ++ encode rear) start
          (omega (arith, e, length-encode front)) in
    let dropped : drop (start + count) (encode ps) ≡ encode rear =
      ap (drop (start + count))
        (left ∙ sym (append_assoc (encode front) (encode deleted) (encode rear)))
      ∙ drop-append (encode front ++ encode deleted) (encode rear) (start + count) (
          omega (
            arith,
            e,
            f,
            length-encode front,
            length-encode deleted,
            length-append (encode front) (encode deleted),
          )) in
    rw (taken, dropped) (sym right)

no_tokens : (ts : List SemanticToken) → length ts ≡ 0 → ts ≡ []
no_tokens [] e = refl
no_tokens (t ∷ ts) e = absurd (omega (arith, e))

tokens_count : (ts : List SemanticToken) → length (encode ts) / 5 ≡ length ts
tokens_count ts = omega (arith, length-encode ts)

-- the part of the current tokens that the edit inserts
inserted_part :
    (front g rear : List SemanticToken) (cs : List SemanticToken)
    → cs ≡ (front ++ g) ++ rear
    → semantic_token_structs
        (drop (length front * 5) (take (length (encode cs) - length rear * 5) (encode cs)))
      ≡ g
inserted_part front g rear cs e =
    let parts : encode cs ≡ encode (front ++ g) ++ encode rear =
      ap encode e ∙ encode-append (front ++ g) rear in
    let size : length (encode cs) - length rear * 5 ≡ length (encode (front ++ g)) = omega (
      arith,
      ap length parts,
      length-append (encode (front ++ g)) (encode rear),
      length-encode rear,
    ) in
    let taken : take (length (encode cs) - length rear * 5) (encode cs) ≡ encode (front ++ g) =
      ap (take (length (encode cs) - length rear * 5)) parts
      ∙ take-append (encode (front ++ g)) (encode rear) (length (encode cs) - length rear * 5)
          size in
    ap (λ l. semantic_token_structs (drop (length front * 5) l)) (taken ∙ encode-append front g)
    ∙ ap semantic_token_structs
        (drop-append (encode front) (encode g) (length front * 5) (sym (length-encode front)))
    ∙ structs-encode g

edited :
    (ps cs : List SemanticToken) (p s : ℕ)
    → Shares p ps cs
    → Shares s (reverse ps) (reverse cs)
    → s ≤ min (length ps) (length cs) - p
    → length ps * 5 ≤ 2 ^ 32 - 1
    → take (wire_u32 (p * 5)) (encode ps)
        ++ (encode (
              semantic_token_structs (drop (p * 5) (take (length (encode cs) - s * 5) (encode cs))))
            ++ drop (wire_u32 (p * 5) + wire_u32 ((length ps - p - s) * 5)) (encode ps))
      ≡ encode cs
edited ps cs p s front rear le bound =
    let tail : List SemanticToken = reverse rear.front in
    let tail_size : length tail ≡ s = length-reverse rear.front ∙ rear.size in
    let ps_back : ps ≡ reverse rear.left ++ tail = back ps rear.front rear.left rear.first in
    let cs_back : cs ≡ reverse rear.right ++ tail = back cs rear.front rear.right rear.second in
    let ps_size : length ps ≡ length (reverse rear.left) + s =
      omega (arith, ap length ps_back, length-append (reverse rear.left) tail, tail_size) in
    let cs_size : length cs ≡ length (reverse rear.right) + s =
      omega (arith, ap length cs_back, length-append (reverse rear.right) tail, tail_size) in
    let ps_front : length ps ≡ p + length front.left =
      omega (arith, ap length front.first, length-append front.front front.left, front.size) in
    let cs_front : length cs ≡ p + length front.right =
      omega (arith, ap length front.second, length-append front.front front.right, front.size) in
    let (deleted, d) =
      begins front.front front.left (reverse rear.left) tail (sym front.first ∙ ps_back)
        (omega (arith, front.size)) in
    let (inserted, i) =
      begins front.front front.right (reverse rear.right) tail (sym front.second ∙ cs_back)
        (omega (arith, front.size)) in
    let cs_parts : cs ≡ (front.front ++ inserted) ++ tail = cs_back ∙ ap (λ l. l ++ tail) i in
    let ps_parts : ps ≡ (front.front ++ deleted) ++ tail = ps_back ∙ ap (λ l. l ++ tail) d in
    let deleted_size : length (reverse rear.left) ≡ p + length deleted =
      omega (arith, ap length d, length-append front.front deleted, front.size) in
    let data_is : semantic_token_structs
          (drop (p * 5) (take (length (encode cs) - s * 5) (encode cs)))
        ≡ inserted =
      subst
        (λ n.
          semantic_token_structs (drop (n * 5) (take (length (encode cs) - s * 5) (encode cs)))
          ≡ inserted)
        front.size
        (subst
          (λ n.
            semantic_token_structs
              (drop (length front.front * 5) (take (length (encode cs) - n * 5) (encode cs)))
            ≡ inserted)
          tail_size (inserted_part front.front inserted tail cs cs_parts)) in
    rw
      (
        data_is,
        wire_u32_same (p * 5) (omega arith),
        wire_u32_same ((length ps - p - s) * 5) (omega arith),
      )
      (replaced ps cs front.front tail deleted inserted
        (ps_parts ∙ append_assoc front.front deleted tail)
        (cs_parts ∙ append_assoc front.front inserted tail) (p * 5) ((length ps - p - s) * 5)
        (omega (arith, front.size)) (omega arith))

unchanged :
    (ps cs : List SemanticToken) (p : ℕ)
    → Shares p ps cs
    → length ps ≡ length cs
    → p ≡ length ps
    → encode ps ≡ encode cs
unchanged ps cs p front e f =
    let left : front.left ≡ [] =
      no_tokens front.left
        (omega (arith, ap length front.first, length-append front.front front.left, front.size)) in
    let right : front.right ≡ [] =
      no_tokens front.right (
        omega (arith, ap length front.second, length-append front.front front.right, front.size)) in
    ap encode (front.first ∙ ap (λ r. front.front ++ r) (left ∙ sym right) ∙ sym front.second)

and_both : (a b : Bool) → (a && b) ≡ true → (a ≡ true) × (b ≡ true)
and_both true true e = (refl, refl)
and_both true false e = cc
and_both false b e = cc

-- A client that holds the encoding of the previous tokens, of which the numbers can be counted in
-- 32 bits, and applies the edits to it, has the encoding of the current tokens.
pub apply_edits-semantic_token_edits :
    (ps cs : List SemanticToken)
    → length ps * 5 ≤ 2 ^ 32 - 1
    → apply_edits (semantic_token_edits (encode ps) (encode cs)) (encode ps) ≡ encode cs
unfolding semantic_token_edits
apply_edits-semantic_token_edits ps cs bound =
    let p : ℕ = count_same (length ps) ps cs in
    let limit : ℕ = min (length ps) (length cs) - p in
    let front : Shares p ps cs = count_same-Shares (length ps) ps cs in
    let rear : Shares (count_same limit (reverse ps) (reverse cs)) (reverse ps) (reverse cs) =
      count_same-Shares limit (reverse ps) (reverse cs) in
    rw (structs-encode ps, structs-encode cs, tokens_count ps, tokens_count cs)
      (elim (Bool-cases (length ps == length cs && p == length ps)) [
        | inl q ↦
            let (a, b) = and_both (length ps == length cs) (p == length ps) q in
            rw q (unchanged ps cs p front (==→≡ (length ps) (length cs) a) (==→≡ p (length ps) b))
        | inr q ↦ rw q (
            edited ps cs p (count_same limit (reverse ps) (reverse cs)) front rear
              (count_same_le limit (reverse ps) (reverse cs)) bound)
      ])
