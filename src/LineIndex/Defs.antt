-- ===== src/LineIndex/Defs.antt =====
-- `LineIndex`, its construction, and the two conversions. `none` stands for `None` in
-- `position_to_byte`, and for a panic (an index or a slice out of range) in `byte_to_position`.
use witcherscript_language.Base.{
  ℕ, suc, ◌+◌, ◌-◌, Option, none, some, List, [], ◌∷◌, Text, get_elem?, ltb, leb, ◌==◌,
  if◌then◌else◌, unwrap_or, ◌>>=◌,
}
use witcherscript_language.LineIndex.Utf.{bytes, byte_len, utf16_len, slice, len_utf8, len_utf16}

abbrev pub u32_max : ℕ
u32_max = 0xffff_ffff

pub record SourcePosition : Type 0 where
  pub line : ℕ
  pub character : ℕ

unfoldable pub saturate : ℕ → ℕ
saturate n = if leb n u32_max then n else u32_max

-- `SourcePosition::new`
unfoldable pub new_position : ℕ → ℕ → SourcePosition
unfolding saturate
new_position line character = record { line = saturate line; character = saturate character }

pub record SourceRange : Type 0 where
  pub start : SourcePosition
  pub end : SourcePosition

pub record LineIndex : Type 0 where
  pub line_starts : List ℕ

-- the loop of `new` over the bytes from `index` on
unfoldable pub starts_from : List ℕ → ℕ → List ℕ
starts_from [] index = []
starts_from (byte ∷ rest) index =
    let later = starts_from rest (index + 1) in if byte == 10 then (index + 1) ∷ later else later

unfoldable pub new : Text → LineIndex
unfolding starts_from bytes
new source = record { line_starts = 0 ∷ starts_from (bytes source) 0 }

-- `partition_point(|s| *s <= byte)` of an ascending list
unfoldable pub count_up_to : List ℕ → ℕ → ℕ
count_up_to [] byte = 0
count_up_to (s ∷ starts) byte = if leb s byte then suc (count_up_to starts byte) else 0

unfoldable pub byte_to_position : LineIndex → Text → ℕ → Option SourcePosition
unfolding count_up_to new_position slice utf16_len
byte_to_position self source byte =
    let line_index = count_up_to self.line_starts byte - 1 in
    get_elem? self.line_starts line_index >>= λ line_start.
    slice source line_start byte >>= λ before. some (new_position line_index (utf16_len before))

-- the loop over `line.char_indices()`, and what follows it
unfoldable pub find_unit : Text → ℕ → ℕ → ℕ → ℕ → Option ℕ
find_unit [] at line_end units target = if units == target then some line_end else none
find_unit (c ∷ rest) at line_end units target =
    let later = find_unit rest (at + len_utf8 c) line_end (units + len_utf16 c) target in
    if units == target then some at else if ltb target (units + len_utf16 c) then none else later

unfoldable pub position_to_byte : LineIndex → Text → SourcePosition → Option ℕ
unfolding slice byte_len find_unit
position_to_byte self source position = get_elem? self.line_starts position.line >>= λ line_start.
    let line_end = unwrap_or (get_elem? self.line_starts (position.line + 1)) (byte_len source) in
    slice source line_start line_end >>= λ line.
    find_unit line line_start line_end 0 position.character

unfoldable pub byte_range_to_range : LineIndex → Text → ℕ → ℕ → Option SourceRange
unfolding byte_to_position
byte_range_to_range self source start_byte end_byte =
    byte_to_position self source start_byte >>= λ start.
    byte_to_position self source end_byte >>= λ end. some (record { start = start; end = end })

-- `point_to_position`, of a tree-sitter point's row and column
unfoldable pub point_to_position : ℕ → ℕ → SourcePosition
unfolding new_position
point_to_position row column = new_position row column
