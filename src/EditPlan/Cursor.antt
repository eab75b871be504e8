-- ===== src/EditPlan/Cursor.antt =====
-- Where an offset lands when edits are applied, and the caret of an extraction.
use witcherscript_language.Base.{
  ℕ, ◌+◌, ◌<◌, ◌≤◌, ◌≡◌, refl, ap, ◌∙◌, sym, List, [], ◌∷◌, ◌++◌, append_assoc, Option, some, Text,
  arith, leb, true, All,
}
use witcherscript_language.LineIndex.Utf.{byte_len, byte_len-append}
use witcherscript_language.EditPlan.Defs.{
  Splice, Extraction, verified, replace_range, apply_each, apply_splices, apply, ordered,
  insert_ordered, shift, shift_all, applied_offset, insert_and_replace,
}
use witcherscript_language.EditPlan.Chunks.{
  Chunk, source_of, result_of, edit_of, edits_of, apply_splices-edits_of, replace_range-between,
}

-- the splice does not end at or before the offset
abbrev pub EndsAfter : ℕ → Splice → Type 0
EndsAfter original s = original < s.range.end

shift_all-after :
    (after : List Splice) (original : ℕ) (pos : Option ℕ)
    → All (EndsAfter original) after
    → shift_all after original pos ≡ pos
unfolding shift_all
shift_all-after [] original pos h = refl
shift_all-after (s ∷ after) original pos (h, k) =
    ground (arith, shift_all-after after original pos k)

shift-edit_of :
    (c : Chunk) (at x rest : ℕ)
    → shift (some (x + (byte_len c.gap + (byte_len c.old + rest)))) (edit_of c at)
      ≡ some (x + byte_len c.gap + byte_len c.new + rest)
unfolding shift
shift-edit_of c at x rest = ground arith

shift_all_step :
    (s : Splice) (rest : List Splice) (original : ℕ) (pos : Option ℕ)
    → leb s.range.end original ≡ true
    → shift_all (s ∷ rest) original pos ≡ shift_all rest original (shift pos s)
unfolding shift_all
shift_all_step s rest original pos e = rw e refl

shift_all-edits_of :
    (cs : List Chunk) (g : Text) (after : List Splice) (at x original : ℕ)
    → original ≡ at + byte_len (source_of cs g)
    → All (EndsAfter original) after
    → shift_all (edits_of cs at ++ after) original (some (x + byte_len (source_of cs g)))
      ≡ some (x + byte_len (result_of cs g))
unfolding shift_all
shift_all-edits_of [] g after at x original e h = shift_all-after after original _ h
shift_all-edits_of (c ∷ cs) g after at x original e h =
    let s = edit_of c at in
    let rest = byte_len (source_of cs g) in
    let before : byte_len (source_of (c ∷ cs) g) ≡ byte_len c.gap + (byte_len c.old + rest) =
      omega (
        arith,
        byte_len-append c.gap (c.old ++ source_of cs g),
        byte_len-append c.old (source_of cs g),
      ) in
    let behind : byte_len (result_of (c ∷ cs) g)
        ≡ byte_len c.gap + (byte_len c.new + byte_len (result_of cs g)) =
      omega (
        arith,
        byte_len-append c.gap (c.new ++ result_of cs g),
        byte_len-append c.new (result_of cs g),
      ) in
    let left : leb s.range.end original ≡ true = ground arith in
    let ends = at + byte_len c.gap + byte_len c.old in
    let more = edits_of cs ends ++ after in
    shift_all_step s more original (some (x + byte_len (source_of (c ∷ cs) g))) left
    ∙ ap (λ n. shift_all more original (shift (some n) s)) (ap (λ n. x + n) before)
    ∙ ap (shift_all more original) (shift-edit_of c at x rest)
    ∙ shift_all-edits_of cs g after ends (x + byte_len c.gap + byte_len c.new) original
        (omega arith) h
    ∙ ap some (omega arith)

-- An offset in kept text, with the edits before it listed in order and none of the others ending
-- at or before it, moves to the place of that text in the result.
pub applied_offset-edits_of :
    (cs : List Chunk) (g : Text) (after : List Splice)
    → All (EndsAfter (byte_len (source_of cs g))) after
    → applied_offset (edits_of cs 0 ++ after) (byte_len (source_of cs g))
      ≡ some (byte_len (result_of cs g))
unfolding applied_offset
applied_offset-edits_of cs g after h =
    let here = byte_len (source_of cs g) in
    let all_edits = edits_of cs 0 ++ after in
    ap (λ n. shift_all all_edits here (some n)) (zero_add here)
    ∙ shift_all-edits_of cs g after 0 0 here (zero_add here) h
    ∙ ap some (sym (zero_add (byte_len (result_of cs g))))
  where
    zero_add : (n : ℕ) → n ≡ 0 + n
    zero_add n = omega arith

abbrev pub insertion : ℕ → Text → ℕ → ℕ → Text → List Splice
insertion at ins start end new =
    record { range = record { start = at; end = at }; text = ins }
    ∷ record { range = record { start = start; end = end }; text = new }
    ∷ []

insertion_moves :
    (at : ℕ) (ins : Text) (start end : ℕ) (new : Text)
    → at ≤ start
    → start < end
    → applied_offset (insertion at ins start end new) start ≡ some (start + byte_len ins)
unfolding applied_offset shift_all shift
insertion_moves at ins start end new h k = ground arith

abbrev two_chunks : Text → Text → Text → Text → Text → List Chunk
two_chunks a ins b old new =
    record { gap = a; old = []; new = ins } ∷ record { gap = b; old = old; new = new } ∷ []

insertion_is :
    (a ins b old new : Text)
    → insertion
        (byte_len a)
        ins
        (byte_len a + byte_len b)
        (byte_len a + byte_len b + byte_len old)
        new
      ≡ edits_of (two_chunks a ins b old new) 0
unfolding byte_len
insertion_is a ins b old new = same (omega arith) (omega arith) (omega arith) (omega arith)
  where
    same :
        {m n p q m' n' p' q' : ℕ}
        → m ≡ m'
        → n ≡ n'
        → p ≡ p'
        → q ≡ q'
        → ◌≡◌ {A = List Splice}
            (record { range = record { start = m; end = n }; text = ins }
              ∷ record { range = record { start = p; end = q }; text = new }
              ∷ [])
            (record { range = record { start = m'; end = n' }; text = ins }
              ∷ record { range = record { start = p'; end = q' }; text = new }
              ∷ [])
    same e f g h = cc

insertion_applies :
    (a ins b old new c : Text)
    → 0 < byte_len b
    → apply_splices (a ++ (b ++ (old ++ c))) (
        insertion
          (byte_len a)
          ins
          (byte_len a + byte_len b)
          (byte_len a + byte_len b + byte_len old)
          new)
      ≡ some (a ++ (ins ++ (b ++ (new ++ c))))
unfolding byte_len
insertion_applies a ins b old new c h =
    ap (apply_splices (a ++ (b ++ (old ++ c)))) (insertion_is a ins b old new)
    ∙ apply_splices-edits_of (two_chunks a ins b old new) c ((omega arith, tt), (tt, tt))

-- An extraction that inserts strictly before the text it replaces has its caret `cursor_prefix`
-- bytes into the replacement, and its plan makes both edits and keeps all other text.
pub insert_and_replace-cursor :
    (a ins b old new c : Text) (cursor_prefix : ℕ) (name : Text)
    → 0 < byte_len b
    → 0 < byte_len old
    → (x : Extraction) × (insert_and_replace
          (byte_len a)
          ins
          (record { start = byte_len a + byte_len b; end = byte_len a + byte_len b + byte_len old })
          new
          cursor_prefix
          name
        ≡ some x)
      × (apply x.plan (a ++ (b ++ (old ++ c))) ≡ some (a ++ (ins ++ (b ++ (new ++ c)))))
      × (x.cursor ≡ byte_len (a ++ (ins ++ b)) + cursor_prefix)
unfolding insert_and_replace apply
insert_and_replace-cursor a ins b old new c cursor_prefix name hb ho =
    let start = byte_len a + byte_len b in
    let end = byte_len a + byte_len b + byte_len old in
    let edits = insertion (byte_len a) ins start end new in
    (
      record {
        plan = record { edits = edits; confidence = verified };
        name = name;
        cursor = start + byte_len ins + cursor_prefix;
      },
      rw (insertion_moves (byte_len a) ins start end new (omega arith) (omega arith)) refl,
      insertion_applies a ins b old new c hb,
      omega (arith, byte_len-append a (ins ++ b), byte_len-append ins b),
    )

ordered-insertion :
    (at : ℕ) (ins : Text) (end : ℕ) (new : Text)
    → ordered (insertion at ins at end new) ≡ insertion at ins at end new
unfolding ordered insert_ordered
ordered-insertion at ins end new = ground arith

apply_two :
    (s r : Splice) (t u v : Text)
    → replace_range t s.range s.text ≡ some u
    → replace_range u r.range r.text ≡ some v
    → apply_each (s ∷ r ∷ []) t ≡ some v
unfolding apply_each
apply_two s r t u v e f = rw (e, f) refl

-- When the insertion is at the start of the replaced text, the replacement overwrites the inserted
-- text and leaves the text it was meant to replace.
pub apply_splices-adjacent :
    (a ins more old new c : Text)
    → byte_len ins ≡ byte_len old
    → apply_splices
        (a ++ (old ++ c))
        (insertion (byte_len a) (ins ++ more) (byte_len a) (byte_len a + byte_len old) new)
      ≡ some (a ++ (new ++ (more ++ (old ++ c))))
unfolding apply_splices byte_len
apply_splices-adjacent a ins more old new c e =
    let at = byte_len a in
    let end = byte_len a + byte_len old in
    ap (λ l. apply_each l (a ++ (old ++ c))) (ordered-insertion at (ins ++ more) end new)
    ∙ apply_two (record { range = record { start = at; end = at }; text = ins ++ more })
        (record { range = record { start = at; end = end }; text = new }) (a ++ (old ++ c))
        (a ++ (ins ++ (more ++ (old ++ c)))) _
        (replace_range-between a [] (old ++ c) (ins ++ more) at at refl (omega arith)
          ∙ ap (λ t. some (a ++ t)) (append_assoc ins more (old ++ c)))
        (replace_range-between a ins (more ++ (old ++ c)) new at end refl (omega arith))
