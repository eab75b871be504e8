-- ===== src/EditPlan/Chunks.antt =====
-- A text cut into what the edits replace and what lies between (src/resolve/edit_plan.rs).
use witcherscript_language.Base.{
  ℕ, ◌+◌, ◌-◌, ◌≡◌, refl, ap, ◌∙◌, List, [], ◌∷◌, ◌++◌, append_assoc, some, Text, ◌>>=◌, arith,
}
use witcherscript_language.LineIndex.Utf.{byte_len, split_at_byte-append, byte_len-append}
use witcherscript_language.EditPlan.Defs.{Splice, replace_range, apply_each, apply_splices}
use witcherscript_language.EditPlan.Order.{
  Ascending, backwards, ordered-backwards, apply_each-append,
}

-- kept text, and behind it a replaced text with its replacement
pub record Chunk : Type 0 where
  pub gap : Text
  pub old : Text
  pub new : Text

abbrev pub source_of : List Chunk → Text → Text
source_of [] tail = tail
source_of (c ∷ cs) tail = c.gap ++ (c.old ++ source_of cs tail)

abbrev pub result_of : List Chunk → Text → Text
result_of [] tail = tail
result_of (c ∷ cs) tail = c.gap ++ (c.new ++ result_of cs tail)

abbrev pub edit_of : Chunk → ℕ → Splice
edit_of c at = record {
  range = record { start = at + byte_len c.gap; end = at + byte_len c.gap + byte_len c.old };
  text = c.new;
}

-- the edits of the chunks of a text that begins at an offset
abbrev pub edits_of : List Chunk → ℕ → List Splice
edits_of [] at = []
edits_of (c ∷ cs) at = edit_of c at ∷ edits_of cs (at + byte_len c.gap + byte_len c.old)

pub replace_range-between :
    (a m r new : Text) (lo hi : ℕ)
    → lo ≡ byte_len a
    → hi ≡ byte_len a + byte_len m
    → replace_range (a ++ (m ++ r)) (record { start = lo; end = hi }) new ≡ some (a ++ (new ++ r))
unfolding replace_range
replace_range-between a m r new lo hi e f =
    ground (
      arith,
      split_at_byte-append a (m ++ r) lo e,
      split_at_byte-append m r (hi - lo) (omega arith),
    )

apply_backwards :
    (cs : List Chunk) (tail p : Text) (at : ℕ)
    → at ≡ byte_len p
    → apply_each (backwards (edits_of cs at)) (p ++ source_of cs tail)
      ≡ some (p ++ result_of cs tail)
apply_backwards [] tail p at e = unfold apply_each in refl
apply_backwards (c ∷ cs) tail p at e =
    let s = edit_of c at in
    let rest = edits_of cs (at + byte_len c.gap + byte_len c.old) in
    let head = p ++ (c.gap ++ c.old) in
    apply_each-append (backwards rest) s (p ++ source_of (c ∷ cs) tail)
    ∙ ap (λ t. apply_each (backwards rest) t >>= λ u. replace_range u s.range s.text)
        (regroup p c.gap c.old (source_of cs tail))
    ∙ ap (λ o. o >>= λ u. replace_range u s.range s.text)
        (apply_backwards cs tail head (at + byte_len c.gap + byte_len c.old)
          (omega (arith, byte_len-append p (c.gap ++ c.old), byte_len-append c.gap c.old)))
    ∙ ap (λ t. replace_range t s.range s.text) (sides p c.gap c.old (result_of cs tail))
    ∙ replace_range-between (p ++ c.gap) c.old (result_of cs tail) c.new s.range.start s.range.end
        (omega (arith, byte_len-append p c.gap)) (omega (arith, byte_len-append p c.gap))
    ∙ ap some (append_assoc p c.gap (c.new ++ result_of cs tail))
  where
    regroup : (a b c d : Text) → a ++ (b ++ (c ++ d)) ≡ (a ++ (b ++ c)) ++ d
    regroup a b c d = simp append_assoc

    sides : (a b c d : Text) → (a ++ (b ++ c)) ++ d ≡ (a ++ b) ++ (c ++ d)
    sides a b c d = simp append_assoc

-- Edits whose starts ascend strictly replace the texts at their ranges and keep all other text.
pub apply_splices-edits_of :
    (cs : List Chunk) (tail : Text)
    → Ascending (edits_of cs 0)
    → apply_splices (source_of cs tail) (edits_of cs 0) ≡ some (result_of cs tail)
unfolding apply_splices
apply_splices-edits_of cs tail h =
    ap (λ l. apply_each l (source_of cs tail)) (ordered-backwards (edits_of cs 0) h)
    ∙ apply_backwards cs tail [] 0 (unfold byte_len in refl)
