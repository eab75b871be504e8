-- ===== src/Types/Trim.antt =====
-- `str::trim`, and searching a text for a character.
use witcherscript_language.Base.{
  is_empty, ℕ, ◌+◌, ◌≤◌, ◌≡◌, Bool, false, ◌&&◌, ◌||◌, Option, none, some, [], ◌∷◌, ◌++◌, Text,
  length, leb, ◌==◌, if◌then◌else◌, ◌>>=◌, arith,
}

-- `char::is_whitespace`
unfoldable pub is_whitespace : ℕ → Bool
is_whitespace c =
    leb 9 c && leb c 13
    || c == 0x20
    || c == 0x85
    || c == 0xa0
    || c == 0x1680
    || leb 0x2000 c && leb c 0x200a
    || c == 0x2028
    || c == 0x2029
    || c == 0x202f
    || c == 0x205f
    || c == 0x3000

unfoldable pub trim_start : Text → Text
trim_start [] = []
trim_start (c ∷ s) = let rest = trim_start s in if is_whitespace c then rest else c ∷ s

unfoldable pub trim_end : Text → Text
unfolding is_empty
trim_end [] = []
trim_end (c ∷ s) =
    let rest = trim_end s in if is_empty rest && is_whitespace c then [] else c ∷ rest

unfoldable pub trim : Text → Text
unfolding trim_start trim_end
trim s = trim_end (trim_start s)

-- the texts before and after the first occurrence of a character
unfoldable pub split_first : ℕ → Text → Option (Text × Text)
split_first ch [] = none
split_first ch (c ∷ s) =
    let rest = split_first ch s in
    if c == ch then some ([], s) else rest >>= λ (p : Text × Text). some (c ∷ p.0, p.1)

-- the text without a given last character, if it ends with it
unfoldable pub strip_last : ℕ → Text → Option Text
unfolding is_empty
strip_last ch [] = none
strip_last ch (c ∷ s) =
    let rest = strip_last ch s in
    if is_empty s then (if c == ch then some [] else none) else rest >>= λ t. some (c ∷ t)

pub length-trim_start : (s : Text) → length (trim_start s) ≤ length s
unfolding trim_start
length-trim_start [] = omega arith
length-trim_start (c ∷ s) = ground (arith, length-trim_start s)

pub length-trim_end : (s : Text) → length (trim_end s) ≤ length s
unfolding trim_end
length-trim_end [] = omega arith
length-trim_end (c ∷ s) = ground (arith, length-trim_end s)

pub length-trim : (s : Text) → length (trim s) ≤ length s
unfolding trim
length-trim s = omega (arith, length-trim_start s, length-trim_end (trim_start s))

pub length-split_first :
    (ch : ℕ) (s p r : Text) → split_first ch s ≡ some (p, r) → length p + length r + 1 ≡ length s
unfolding split_first
length-split_first ch [] p r e = cc
length-split_first ch (c ∷ s) [] r e = ground arith
length-split_first ch (c ∷ s) (d ∷ p) r e = ground (arith, length-split_first ch s p r)

pub length-strip_last : (ch : ℕ) (s t : Text) → strip_last ch s ≡ some t → length t + 1 ≡ length s
unfolding strip_last
length-strip_last ch [] t e = cc
length-strip_last ch (c ∷ s) [] e = ground arith
length-strip_last ch (c ∷ s) (d ∷ t) e = ground (arith, length-strip_last ch s t)

pub strip_last-append : (ch : ℕ) (s : Text) → strip_last ch (s ++ ch ∷ []) ≡ some s
unfolding strip_last
strip_last-append ch [] = ground arith
strip_last-append ch (c ∷ []) = ground (arith, strip_last-append ch [])
strip_last-append ch (c ∷ (d ∷ s)) = ground (arith, strip_last-append ch (d ∷ s))

-- a text that ends in a character that is no white space is not trimmed there
pub trim_end-append :
    (s : Text) (c : ℕ) → is_whitespace c ≡ false → trim_end (s ++ c ∷ []) ≡ s ++ c ∷ []
unfolding trim_end
trim_end-append [] c h = rw h
trim_end-append (d ∷ []) c h = rw (trim_end-append [] c h)
trim_end-append (d ∷ (e ∷ s)) c h = rw (trim_end-append (e ∷ s) c h)
