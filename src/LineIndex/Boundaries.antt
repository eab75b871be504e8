-- ===== src/LineIndex/Boundaries.antt =====
-- `position_to_byte` and the character boundaries of a text (src/line_index.rs).
use witcherscript_language.Base.{
  ℕ, zero, suc, ◌+◌, ◌-◌, ◌≡◌, refl, ap, ◌∙◌, Option, none, some, [], ◌∷◌, ◌++◌, append_assoc, Text,
  get_elem?, ltb, ◌==◌, unwrap_or, arith, Bool-cases, inl, inr, Option-cases, ltb→le,
}
use witcherscript_language.LineIndex.Utf.{
  byte_len, len_utf8, len_utf16, byte_len-append, split_at_byte, slice,
}
use witcherscript_language.LineIndex.Defs.{LineIndex, SourcePosition, find_unit, position_to_byte}

-- `byte` is the length of a prefix of the text
pub record IsBoundary (s : Text) (byte : ℕ) : Type 0 where
  pub before : Text
  pub after : Text
  pub parts : s ≡ before ++ after
  pub at : byte ≡ byte_len before

pub split_at_byte-inverse :
    (s : Text) (n : ℕ) (p r : Text)
    → split_at_byte s n ≡ some (p, r)
    → (s ≡ p ++ r) × (n ≡ byte_len p)
unfolding split_at_byte byte_len
split_at_byte-inverse s zero p r e =
    let nothing : p ≡ [] = ground arith in
    let all : r ≡ s = ground arith in (rw (nothing, all), rw nothing)
split_at_byte-inverse [] (suc n) p r e = cc
split_at_byte-inverse (c ∷ s) (suc n) p r e = elim (Bool-cases (ltb (suc n) (len_utf8 c))) [
  | inl short ↦ cut (rw short at e)
  | inr long ↦ elim (Option-cases (split_at_byte s (suc n - len_utf8 c))) [
    | inl out ↦ cut (rw (long, out) at e)
    | inr ((q, t), found) ↦
        let (parts, at) = split_at_byte-inverse s (suc n - len_utf8 c) q t found in
        let same : ◌≡◌ {A = Option (Text × Text)} (some (c ∷ q, t)) (some (p, r)) =
          rw (long, found) at e in
        let prefix : p ≡ c ∷ q = ground arith in
        let suffix : r ≡ t = ground arith in
        (
          rw (prefix, suffix) (ap (λ u. c ∷ u) parts),
          rw prefix (omega (arith, ltb→le (suc n) (len_utf8 c) long)),
        )
  ]
]
  where
    cut :
        ◌≡◌ {A = Option (Text × Text)} none (some (p, r)) → (c ∷ s ≡ p ++ r) × (suc n ≡ byte_len p)
    cut h = cc

regroup : (a b c d : Text) → a ++ ((b ++ c) ++ d) ≡ (a ++ b) ++ (c ++ d)
regroup a b c d = simp append_assoc

find_unit-boundary :
    (line : Text) (lo line_end units target byte : ℕ)
    → line_end ≡ lo + byte_len line
    → find_unit line lo line_end units target ≡ some byte
    → (cur : Text) × (rest : Text) × (line ≡ cur ++ rest) × (byte ≡ lo + byte_len cur)
unfolding find_unit byte_len
find_unit-boundary [] lo line_end units target byte e h = ([], [], refl, ground arith)
find_unit-boundary (c ∷ line) lo line_end units target byte e h =
    elim (Bool-cases (units == target)) [
      | inl stop ↦ ([], c ∷ line, refl, ground arith)
      | inr on ↦ elim (Bool-cases (ltb target (units + len_utf16 c))) [
        | inl over ↦ absurd (ground arith)
        | inr more ↦
            let (cur, rest, parts, at) =
              find_unit-boundary line (lo + len_utf8 c) line_end (units + len_utf16 c) target byte
                (omega arith) (rw (on, more) at h) in
            (c ∷ cur, rest, ap (λ u. c ∷ u) parts, omega arith)
      ]
    ]

pub slice-parts :
    (s : Text) (lo hi : ℕ) (line : Text)
    → slice s lo hi ≡ some line
    → (p : Text) × (r : Text) × (s ≡ p ++ (line ++ r))
      × (lo ≡ byte_len p)
      × (hi ≡ lo + byte_len line)
unfolding slice
slice-parts s lo hi line e = elim (Bool-cases (ltb hi lo)) [
  | inl back ↦ no_slice (rw back at e)
  | inr on ↦ elim (Option-cases (split_at_byte s lo)) [
    | inl out ↦ no_slice (rw (on, out) at e)
    | inr ((p, rest), found) ↦ elim (Option-cases (split_at_byte rest (hi - lo))) [
      | inl out ↦ no_slice (rw (on, found, out) at e)
      | inr ((m, r), cut) ↦
          let same : some m ≡ some line = rw (on, found, cut) at e in
          let is_line : m ≡ line = cc in
          let (parts, at) = split_at_byte-inverse s lo p rest found in
          let (parts', at') = split_at_byte-inverse rest (hi - lo) m r cut in
          (
            p,
            r,
            rw (← is_line) (parts ∙ ap (λ t. p ++ t) parts'),
            at,
            rw (← is_line) (omega (arith, ltb→le hi lo on)),
          )
    ]
  ]
]
  where
    no_slice :
        ◌≡◌ {A = Option Text} none (some line)
        → (p : Text) × (r : Text) × (s ≡ p ++ (line ++ r))
          × (lo ≡ byte_len p)
          × (hi ≡ lo + byte_len line)
    no_slice h = cc

-- Any offset that `position_to_byte` returns, for any index and position, lies on a character
-- boundary of the text.
pub position_to_byte-IsBoundary :
    (self : LineIndex) (source : Text) (position : SourcePosition) (byte : ℕ)
    → position_to_byte self source position ≡ some byte
    → IsBoundary source byte
unfolding position_to_byte
position_to_byte-IsBoundary self source position byte e =
    elim (Option-cases (get_elem? self.line_starts position.line)) [
      | inl out ↦ no_byte (rw out at e)
      | inr (start, found) ↦
          let end : ℕ =
            unwrap_or (get_elem? self.line_starts (position.line + 1)) (byte_len source) in
          elim (Option-cases (slice source start end)) [
            | inl out ↦ no_byte (rw (found, out) at e)
            | inr (line, cut) ↦
                let (p, r, parts, at, reach) = slice-parts source start end line cut in
                let (cur, rest, parts', at') =
                  find_unit-boundary line start end 0 position.character byte reach
                    (rw (found, cut) at e) in
                record {
                  before = p ++ cur;
                  after = rest ++ r;
                  parts = parts ∙ ap (λ t. p ++ (t ++ r)) parts' ∙ regroup p cur rest r;
                  at = omega (arith, byte_len-append p cur);
                }
          ]
    ]
  where
    no_byte : ◌≡◌ {A = Option ℕ} none (some byte) → IsBoundary source byte
    no_byte h = cc
