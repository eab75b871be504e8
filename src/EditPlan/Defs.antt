-- ===== src/EditPlan/Defs.antt =====
-- `Splice`, `EditPlan`, `Extraction` and what makes and applies them. `none` stands for a panic: a
-- range that is out of the text or splits a character, or a subtraction below 0.
use witcherscript_language.Base.{
  drop, length, ℕ, zero, suc, ◌+◌, ◌-◌, Bool, false, ◌||◌, Option, none, some, List, [], ◌∷◌, ◌++◌,
  Text, get_elem?, ltb, leb, ◌==◌, if◌then◌else◌, ◌>>=◌,
}
use witcherscript_language.LineIndex.Utf.{bytes, byte_len, split_at_byte}

-- `Range<usize>`
pub record Range : Type 0 where
  pub start : ℕ
  pub end : ℕ

pub record Splice : Type 0 where
  pub range : Range
  pub text : Text

pub data Confidence : Type 0 where
  verified unverified : Confidence

pub record EditPlan : Type 0 where
  pub edits : List Splice
  pub confidence : Confidence

pub record Extraction : Type 0 where
  pub plan : EditPlan
  pub name : Text
  pub cursor : ℕ

unfoldable pub with_confidence : Extraction → Confidence → Extraction
with_confidence self confidence = record self {
  plan = record { edits = self.plan.edits; confidence = confidence };
}

-- `String::replace_range`
unfoldable pub replace_range : Text → Range → Text → Option Text
unfolding split_at_byte
replace_range s range new =
    if ltb range.end range.start
    then none
    else split_at_byte s range.start >>= λ (p : Text × Text).
        split_at_byte p.1 (range.end - range.start) >>= λ (q : Text × Text).
        some (p.0 ++ (new ++ q.1))

-- the stable sort by `Reverse(start)`
unfoldable pub insert_ordered : Splice → List Splice → List Splice
insert_ordered s [] = s ∷ []
insert_ordered s (t ∷ rest) =
    let later = insert_ordered s rest in
    if leb t.range.start s.range.start then s ∷ (t ∷ rest) else t ∷ later

unfoldable pub ordered : List Splice → List Splice
unfolding insert_ordered
ordered [] = []
ordered (s ∷ rest) = insert_ordered s (ordered rest)

unfoldable pub apply_each : List Splice → Text → Option Text
unfolding replace_range
apply_each [] applied = some applied
apply_each (s ∷ rest) applied = replace_range applied s.range s.text >>= apply_each rest

unfoldable pub apply_splices : Text → List Splice → Option Text
unfolding ordered apply_each
apply_splices text splices = apply_each (ordered splices) text

-- `EditPlan::apply`
unfoldable pub apply : EditPlan → Text → Option Text
unfolding apply_splices
apply self source = apply_splices source self.edits

unfoldable pub is_blank : ℕ → Bool
is_blank b = b == b' ' || b == 9

unfoldable pub byte_is : List ℕ → ℕ → (ℕ → Bool) → Bool
byte_is source i test = elim (get_elem? source i) [ none ↦ false | some b ↦ test b ]

-- the two loops of `delete_statement`, from `start` downwards and from the first byte at `end` on
unfoldable pub skip_back : List ℕ → ℕ → ℕ
unfolding byte_is is_blank
skip_back source zero = zero
skip_back source (suc i) =
    let before = skip_back source i in if byte_is source i is_blank then before else suc i

unfoldable pub skip_blanks : List ℕ → ℕ → ℕ
unfolding is_blank
skip_blanks [] end = end
skip_blanks (b ∷ rest) end =
    let later = skip_blanks rest (end + 1) in if is_blank b then later else end

unfoldable pub skip_byte : List ℕ → ℕ → ℕ → ℕ
unfolding byte_is
skip_byte source end byte = if byte_is source end (λ b. b == byte) then end + 1 else end

-- the range of `delete_statement`, from the bytes of the source
unfoldable pub delete_range : List ℕ → Range → Range
unfolding skip_back skip_blanks skip_byte byte_is
delete_range source stmt =
    let start = skip_back source stmt.start in
    let at_line_start = start == 0 || byte_is source (start - 1) (λ b. b == 10) in
    let end = skip_blanks (drop stmt.end source) stmt.end in
    if at_line_start
    then record { start = start; end = skip_byte source (skip_byte source end 13) 10 }
    else record { start = stmt.start; end = end }

unfoldable pub delete_statement : Text → Range → Option Splice
unfolding delete_range bytes
delete_statement source stmt =
    if ltb (length (bytes source)) stmt.start
    then none
    else some (record { range = delete_range (bytes source) stmt; text = [] })

unfoldable pub remove_list_entry : Range → Option Range → Option Range → Splice
remove_list_entry target prev (some next) = record {
  range = record { start = target.start; end = next.start };
  text = [];
}
remove_list_entry target (some prev) none = record {
  range = record { start = prev.end; end = target.end };
  text = [];
}
remove_list_entry target none none = record { range = target; text = [] }

unfoldable pub shift : Option ℕ → Splice → Option ℕ
unfolding byte_len
shift none s = none
shift (some pos) s =
    if ltb s.range.end s.range.start
    then some (pos + byte_len s.text)
    else if ltb (pos + byte_len s.text) (s.range.end - s.range.start)
    then none
    else some (pos + byte_len s.text - (s.range.end - s.range.start))

unfoldable pub shift_all : List Splice → ℕ → Option ℕ → Option ℕ
unfolding shift
shift_all [] original pos = pos
shift_all (s ∷ rest) original pos =
    shift_all rest original (if leb s.range.end original then shift pos s else pos)

unfoldable pub applied_offset : List Splice → ℕ → Option ℕ
unfolding shift_all
applied_offset edits original = shift_all edits original (some original)

unfoldable pub insert_and_replace : ℕ → Text → Range → Text → ℕ → Text → Option Extraction
unfolding applied_offset
insert_and_replace insert_at insert_text replace replace_text cursor_prefix name =
    let edits =
      record { range = record { start = insert_at; end = insert_at }; text = insert_text }
      ∷ record { range = replace; text = replace_text }
      ∷ [] in
    applied_offset edits replace.start >>= λ moved. some (record {
      plan = record { edits = edits; confidence = verified };
      name = name;
      cursor = moved + cursor_prefix;
    })
