-- ===== src/LineIndex/RoundTrip.antt =====
-- From a byte offset to a position and back (src/line_index.rs).
use mathlib.Core.Path.{ap₂}
use witcherscript_language.Base.{
  ℕ, ◌+◌, ◌-◌, ◌≤◌, ◌≡◌, refl, ap, ◌∙◌, some, List, [], ◌∷◌, ◌++◌, append_assoc, Text, length,
  get_elem?, unwrap_or, arith,
}
use witcherscript_language.LineIndex.Utf.{
  byte_len, len_utf8, len_utf16, len_utf16-pos, byte_len-append, utf16_len, slice, slice-between,
}
use witcherscript_language.LineIndex.Defs.{
  LineIndex, new, SourcePosition, u32_max, new_position, saturate, count_up_to, byte_to_position,
  find_unit, position_to_byte,
}
use witcherscript_language.LineIndex.Starts.{
  starts_of, starts_from-bytes, starts_of-append, count_up_to-prefix, last_start, get_elem?-last,
  get_elem?-next, LineOf, last_start-LineOf, LineEnd, first_start-LineEnd, length-starts_of,
  utf16_len-le,
}

-- the loop walks over `cur` and stops behind it
find_unit-prefix :
    (cur rest : Text) (at line_end units target : ℕ)
    → target ≡ units + utf16_len cur
    → line_end ≡ at + byte_len cur + byte_len rest
    → find_unit (cur ++ rest) at line_end units target ≡ some (at + byte_len cur)
unfolding find_unit utf16_len byte_len
find_unit-prefix [] [] at line_end units target e f = ground arith
find_unit-prefix [] (c ∷ rest) at line_end units target e f = ground arith
find_unit-prefix (c ∷ cur) rest at line_end units target e f = ground (
  arith,
  len_utf16-pos c,
  find_unit-prefix cur rest (at + len_utf8 c) line_end (units + len_utf16 c) target,
)

regroup : (a b c d : Text) → (a ++ b) ++ (c ++ d) ≡ a ++ ((b ++ c) ++ d)
regroup a b c d = simp append_assoc

new-starts : (s : Text) → (new s).line_starts ≡ 0 ∷ starts_of s 0
unfolding new
new-starts s = ap (λ (t : List ℕ). 0 ∷ t) (starts_from-bytes s 0)

line_starts-split :
    (p r : Text) → (new (p ++ r)).line_starts ≡ 0 ∷ (starts_of p 0 ++ starts_of r (byte_len p))
line_starts-split p r =
    let whole : 0 + byte_len p ≡ byte_len p = omega arith in
    new-starts (p ++ r)
    ∙ ap (λ (t : List ℕ). 0 ∷ t)
        (starts_of-append p r 0 ∙ ap (λ n. starts_of p 0 ++ starts_of r n) whole)

saturates-not : (n : ℕ) → n ≤ u32_max → saturate n ≡ n
unfolding saturate
saturates-not n h = ground arith

count-line :
    (p r : Text) → count_up_to (new (p ++ r)).line_starts (byte_len p) - 1 ≡ length (starts_of p 0)
unfolding count_up_to
count-line p r = rw (new-starts (p ++ r)) (ground (arith, count_up_to-prefix p r))

-- The texts around a boundary: the line so far, the rest of the line, and what is on either side.
record Around (p r : Text) : Type 0 where
  so_far : LineOf p (last_start p 0 0)
  to_come :
      LineEnd r
        (byte_len p)
        (unwrap_or (get_elem? (starts_of r (byte_len p)) 0) (byte_len p + byte_len r))

around : (p r : Text) → Around p r
around p r = record {
  so_far = last_start-LineOf [] [] p 0 0 (unfold byte_len in refl) (unfold byte_len in refl);
  to_come = first_start-LineEnd r (byte_len p);
}

module _ (p r : Text) (fits : byte_len (p ++ r) ≤ u32_max) where
  abbrev source : Text
  source = p ++ r

  abbrev index : LineIndex
  index = new source

  abbrev line_no : ℕ
  line_no = length (starts_of p 0)

  abbrev here : Around p r
  here = around p r

  abbrev position : SourcePosition
  position = record { line = line_no; character = utf16_len here.so_far.line }

  start-found : get_elem? index.line_starts line_no ≡ some (last_start p 0 0)
  start-found = rw (line_starts-split p r) (get_elem?-last p 0 0 (starts_of r (byte_len p)))

  end-found :
      unwrap_or (get_elem? index.line_starts (line_no + 1)) (byte_len source)
      ≡ byte_len p + byte_len here.to_come.line
  end-found =
      rw
        (
          line_starts-split p r,
          get_elem?-next p 0 0 (starts_of r (byte_len p)),
          byte_len-append p r,
        )
        here.to_come.ends

  p-parts : byte_len p ≡ byte_len here.so_far.before + byte_len here.so_far.line
  p-parts = ap byte_len here.so_far.parts ∙ byte_len-append here.so_far.before here.so_far.line

  before-slice : slice source (last_start p 0 0) (byte_len p) ≡ some here.so_far.line
  before-slice =
      ap (λ s. slice s (last_start p 0 0) (byte_len p))
        (ap (λ q. q ++ r) here.so_far.parts ∙ append_assoc here.so_far.before here.so_far.line r)
      ∙ slice-between here.so_far.before here.so_far.line r (last_start p 0 0) (byte_len p)
          here.so_far.starts p-parts

  line-slice :
      slice source (last_start p 0 0) (byte_len p + byte_len here.to_come.line)
      ≡ some (here.so_far.line ++ here.to_come.line)
  line-slice =
      ap (λ s. slice s (last_start p 0 0) (byte_len p + byte_len here.to_come.line))
        (ap₂ (λ a b. a ++ b) here.so_far.parts here.to_come.parts
          ∙ regroup here.so_far.before here.so_far.line here.to_come.line here.to_come.after)
      ∙ slice-between here.so_far.before (here.so_far.line ++ here.to_come.line) here.to_come.after
          (last_start p 0 0) (byte_len p + byte_len here.to_come.line) here.so_far.starts
          (omega (arith, p-parts, byte_len-append here.so_far.line here.to_come.line))

  at-position : byte_to_position index source (byte_len p) ≡ some position
  unfolding byte_to_position new_position
  at-position =
      let low : line_no ≤ u32_max = omega (arith, length-starts_of p 0, byte_len-append p r) in
      let near : utf16_len here.so_far.line ≤ u32_max =
        omega (arith, utf16_len-le here.so_far.line, p-parts, byte_len-append p r) in
      rw (
        count-line p r,
        start-found,
        before-slice,
        saturates-not line_no low,
        saturates-not (utf16_len here.so_far.line) near,
      )

  from-position : position_to_byte index source position ≡ some (byte_len p)
  unfolding position_to_byte
  from-position =
      rw (start-found, end-found, line-slice)
        (find_unit-prefix here.so_far.line here.to_come.line (last_start p 0 0)
            (byte_len p + byte_len here.to_come.line) 0 (utf16_len here.so_far.line) (omega arith)
            (omega (arith, p-parts, here.so_far.starts))
          ∙ ap some (omega (arith, p-parts, here.so_far.starts)))

-- At every character boundary of a text shorter than 4 GiB, the byte offset has a position, and
-- that position leads back to the byte offset.
pub position_to_byte-byte_to_position :
    (p r : Text)
    → byte_len (p ++ r) ≤ u32_max
    → (position : SourcePosition) × (byte_to_position (new (p ++ r)) (p ++ r) (byte_len p)
        ≡ some position)
      × (position_to_byte (new (p ++ r)) (p ++ r) position ≡ some (byte_len p))
position_to_byte-byte_to_position p r fits =
    (position p r fits, at-position p r fits, from-position p r fits)
