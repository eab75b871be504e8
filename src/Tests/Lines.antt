-- ===== src/Tests/Lines.antt =====
-- A text of two lines with a character of two UTF-16 units.
use witcherscript_language.Base.{◌≡◌, ◌++◌, refl, some, none, [], ◌∷◌, Text, arith}
use witcherscript_language.LineIndex.Utf.{byte_len, len_utf8, encode_utf8, len_utf16}
use witcherscript_language.LineIndex.Defs.{SourcePosition, new, byte_to_position, position_to_byte}
use witcherscript_language.LineIndex.RoundTrip.{position_to_byte-byte_to_position}
use witcherscript_language.LineIndex.Boundaries.{position_to_byte-IsBoundary, IsBoundary}

-- `a`, U+1F600 and a newline, and `b`
abbrev before : Text
before = b'a' ∷ 0x1f600 ∷ 10 ∷ []

abbrev after : Text
after = b'b' ∷ []

position_to_byte-byte_to_position_example :
    (position : SourcePosition) × (byte_to_position
        (new (before ++ after))
        (before ++ after)
        (byte_len before)
      ≡ some position)
    × (position_to_byte (new (before ++ after)) (before ++ after) position ≡ some (byte_len before))
position_to_byte-byte_to_position_example =
    position_to_byte-byte_to_position before after (unfold byte_len len_utf8 in omega arith)

position_to_byte-IsBoundary_example : IsBoundary (before ++ after) 5
position_to_byte-IsBoundary_example =
    position_to_byte-IsBoundary (new (before ++ after)) (before ++ after)
      (record { line = 0; character = 3 }) 5
      (unfold new position_to_byte len_utf8 len_utf16 encode_utf8 in refl)

middle_of_pair :
    position_to_byte (new (before ++ after)) (before ++ after) (record { line = 0; character = 2 })
    ≡ none
unfolding new position_to_byte len_utf8 len_utf16 encode_utf8
middle_of_pair = refl
