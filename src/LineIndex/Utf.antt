-- ===== src/LineIndex/Utf.antt =====
-- A `&str` as the list of its scalar values: its bytes, its lengths in UTF-8 and UTF-16, and its
-- slices by byte offsets, which fail outside a character boundary.
use witcherscript_language.Base.{
  ℕ, zero, suc, ◌+◌, ◌-◌, ◌/◌, ◌%◌, ◌<◌, ◌≡◌, refl, Option, none, some, List, [], ◌∷◌, ◌++◌, Text,
  length, length-append, ltb, if◌then◌else◌, ◌>>=◌, arith,
}

-- `char::len_utf8` and `char::len_utf16`
unfoldable pub len_utf8 : ℕ → ℕ
len_utf8 c = if ltb c 0x80 then 1 else if ltb c 0x800 then 2 else if ltb c 0x10000 then 3 else 4

unfoldable pub len_utf16 : ℕ → ℕ
len_utf16 c = if ltb c 0x10000 then 1 else 2

-- the bytes of one scalar value
unfoldable pub encode_utf8 : ℕ → List ℕ
encode_utf8 c =
    if ltb c 0x80
    then c ∷ []
    else if ltb c 0x800
    then (0xc0 + c / 0x40) ∷ (0x80 + c % 0x40) ∷ []
    else if ltb c 0x10000
    then (0xe0 + c / 0x1000) ∷ (0x80 + c / 0x40 % 0x40) ∷ (0x80 + c % 0x40) ∷ []
    else (0xf0 + c / 0x40000)
      ∷ (0x80 + c / 0x1000 % 0x40)
      ∷ (0x80 + c / 0x40 % 0x40)
      ∷ (0x80 + c % 0x40)
      ∷ []

unfoldable pub bytes : Text → List ℕ
bytes [] = []
bytes (c ∷ s) = encode_utf8 c ++ bytes s

-- `source.len()`
unfoldable pub byte_len : Text → ℕ
byte_len [] = 0
byte_len (c ∷ s) = len_utf8 c + byte_len s

-- `encode_utf16().count()`
unfoldable pub utf16_len : Text → ℕ
utf16_len [] = 0
utf16_len (c ∷ s) = len_utf16 c + utf16_len s

unfoldable pub split_at_byte : Text → ℕ → Option (Text × Text)
split_at_byte s zero = some ([], s)
split_at_byte [] (suc n) = none
split_at_byte (c ∷ s) (suc n) =
    let rest = split_at_byte s (suc n - len_utf8 c) in
    if ltb (suc n) (len_utf8 c) then none else rest >>= λ (p : Text × Text). some (c ∷ p.0, p.1)

-- `source.get(lo..hi)`
unfoldable pub slice : Text → ℕ → ℕ → Option Text
unfolding split_at_byte
slice s lo hi =
    if ltb hi lo
    then none
    else split_at_byte s lo >>= λ (p : Text × Text).
        split_at_byte p.1 (hi - lo) >>= λ (q : Text × Text). some q.0

pub len_utf8-pos : (c : ℕ) → 0 < len_utf8 c
unfolding len_utf8
len_utf8-pos c = ground arith

pub len_utf16-pos : (c : ℕ) → 0 < len_utf16 c
unfolding len_utf16
len_utf16-pos c = ground arith

pub byte_len-append : (s t : Text) → byte_len (s ++ t) ≡ byte_len s + byte_len t
unfolding byte_len
byte_len-append [] t = omega arith
byte_len-append (c ∷ s) t = omega (arith, byte_len-append s t)

length-encode_utf8 : (c : ℕ) → length (encode_utf8 c) ≡ len_utf8 c
unfolding encode_utf8 len_utf8
length-encode_utf8 c = ground arith

-- The byte length is the number of bytes.
pub length-bytes : (s : Text) → length (bytes s) ≡ byte_len s
unfolding bytes byte_len
length-bytes [] = refl
length-bytes (c ∷ s) =
    omega (arith, length-append (encode_utf8 c) (bytes s), length-encode_utf8 c, length-bytes s)

pub split_at_byte-append :
    (p r : Text) (n : ℕ) → n ≡ byte_len p → split_at_byte (p ++ r) n ≡ some (p, r)
unfolding split_at_byte byte_len
split_at_byte-append [] r n e = rw e
split_at_byte-append (c ∷ p) r zero e = absurd (omega (arith, len_utf8-pos c))
split_at_byte-append (c ∷ p) r (suc n) e =
    ground (arith, len_utf8-pos c, split_at_byte-append p r (suc n - len_utf8 c))

-- A slice between the ends of two prefixes is the text between them.
pub slice-between :
    (p m r : Text) (lo hi : ℕ)
    → lo ≡ byte_len p
    → hi ≡ byte_len p + byte_len m
    → slice (p ++ (m ++ r)) lo hi ≡ some m
unfolding slice
slice-between p m r lo hi e f =
    ground (
      arith,
      split_at_byte-append p (m ++ r) lo e,
      split_at_byte-append m r (hi - lo) (omega arith),
    )
