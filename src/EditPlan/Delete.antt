-- ===== src/EditPlan/Delete.antt =====
-- The range of `delete_statement` besides the statement (src/resolve/edit_plan.rs).
use witcherscript_language.Base.{
  ℕ, zero, suc, ◌+◌, ◌-◌, ◌<◌, ◌≤◌, ◌≡◌, refl, ap, ◌∙◌, sym, Text, subst, ==→≡, ==→≢, List, [], ◌∷◌,
  Bool, true, false, ◌||◌, Option, none, some, length, get_elem?, drop, arith, ltb, ◌==◌,
  Bool-cases, inl, inr,
}
use witcherscript_language.LineIndex.Utf.{bytes, byte_len, length-bytes}
use witcherscript_language.EditPlan.Defs.{
  Range, Splice, is_blank, byte_is, skip_back, skip_blanks, skip_byte, delete_range,
  delete_statement,
}

-- a blank, a carriage return or a newline
abbrev pub is_space : ℕ → Bool
is_space b = is_blank b || b == 13 || b == 10

-- every offset of the range has a byte of this kind
abbrev pub Spaces : List ℕ → ℕ → ℕ → Type 0
Spaces source lo hi = (i : ℕ) → lo ≤ i → i < hi → byte_is source i is_space ≡ true

space_of :
    (source : List ℕ) (i : ℕ) (test : ℕ → Bool)
    → ((b : ℕ) → test b ≡ true → is_space b ≡ true)
    → byte_is source i test ≡ true
    → byte_is source i is_space ≡ true
unfolding byte_is
space_of source i test h e = go (get_elem? source i) e
  where
    go :
        (o : Option ℕ)
        → elim o [ none ↦ false | some b ↦ test b ] ≡ true
        → elim o [ none ↦ false | some b ↦ is_space b ] ≡ true
    go none q = q
    go (some b) q = h b q

blank_space : (b : ℕ) → is_blank b ≡ true → is_space b ≡ true
blank_space b e = rw e refl

skip_back-Spaces :
    (source : List ℕ) (n : ℕ) → (skip_back source n ≤ n) × Spaces source (skip_back source n) n
unfolding skip_back
skip_back-Spaces source zero = (omega arith, λ i l h. absurd (omega arith))
skip_back-Spaces source (suc n) =
    let (low, spaces) = skip_back-Spaces source n in
    elim (Bool-cases (byte_is source n is_blank)) [
      | inl e ↦ rw e (
        omega arith,
        λ i l h. elim (Bool-cases (i == n)) [
          | inl q ↦ rw (==→≡ i n q) (space_of source n is_blank blank_space e)
          | inr q ↦ spaces i l (omega (arith, ==→≢ i n q))
        ],
      )
      | inr e ↦ rw e (omega arith, λ i l h. absurd (omega arith))
    ]

-- the bytes at and behind an offset
get_elem?-drop :
    (source : List ℕ) (n i : ℕ) → get_elem? (drop n source) i ≡ get_elem? source (n + i)
get_elem?-drop source zero i = ap (get_elem? source) (omega arith)
get_elem?-drop [] (suc n) i = refl
get_elem?-drop (b ∷ source) (suc n) i =
    let later : suc n + i ≡ suc (n + i) = omega arith in
    get_elem?-drop source n i ∙ ap (get_elem? (b ∷ source)) (sym later)

byte_is-drop :
    (source : List ℕ) (n i : ℕ) (test : ℕ → Bool)
    → byte_is (drop n source) i test ≡ byte_is source (n + i) test
unfolding byte_is
byte_is-drop source n i test =
    ap (λ o. elim o [ none ↦ false | some b ↦ test b ]) (get_elem?-drop source n i)

skip_blanks_lem :
    (rest : List ℕ) (end : ℕ)
    → (end ≤ skip_blanks rest end)
      × ((i : ℕ) → end + i < skip_blanks rest end → byte_is rest i is_blank ≡ true)
unfolding skip_blanks byte_is
skip_blanks_lem [] end = (omega arith, λ i h. absurd (omega arith))
skip_blanks_lem (b ∷ rest) end =
    let (low, blanks) = skip_blanks_lem rest (end + 1) in
    elim (Bool-cases (is_blank b)) [
      | inl e ↦ rw e (
        omega arith,
        λ i.
            elim i
              as (λ k.
                end + k < skip_blanks rest (end + 1) → byte_is (b ∷ rest) k is_blank ≡ true) [
                  | zero ↦ λ h. e
                  | suc j ↦ λ h. blanks j (omega arith)
                ],
      )
      | inr e ↦ rw e (omega arith, λ i h. absurd (omega arith))
    ]

pub record OnlySpaces (source : List ℕ) (stmt range : Range) : Type 0 where
  pub starts : range.start ≤ stmt.start
  pub ends : stmt.end ≤ range.end
  pub before : Spaces source range.start stmt.start
  pub after : Spaces source stmt.end range.end

skip_blanks-Spaces :
    (source : List ℕ) (end : ℕ) → Spaces source end (skip_blanks (drop end source) end)
skip_blanks-Spaces source end i l h =
    let (low, blanks) = skip_blanks_lem (drop end source) end in
    let there : end + (i - end) ≡ i = omega arith in
    space_of source i is_blank blank_space (
      subst (λ j. byte_is source j is_blank ≡ true) there
        (sym (byte_is-drop source end (i - end) is_blank) ∙ blanks (i - end) (omega arith)))

skip_byte-Spaces :
    (source : List ℕ) (lo end byte : ℕ)
    → is_space byte ≡ true
    → Spaces source lo end
    → (end ≤ skip_byte source end byte) × Spaces source lo (skip_byte source end byte)
unfolding skip_byte
skip_byte-Spaces source lo end byte s h = elim (Bool-cases (byte_is source end (λ b. b == byte))) [
  | inl e ↦ rw e (
    omega arith,
    λ i l k. elim (Bool-cases (i == end)) [
      | inl q ↦
          rw (==→≡ i end q) (space_of source end (λ b. b == byte) (λ b r. rw (==→≡ b byte r) s) e)
      | inr q ↦ h i l (omega (arith, ==→≢ i end q))
    ],
  )
  | inr e ↦ rw e (omega arith, h)
]

delete_range-OnlySpaces :
    (source : List ℕ) (stmt : Range) → OnlySpaces source stmt (delete_range source stmt)
unfolding delete_range
delete_range-OnlySpaces source stmt =
    let start = skip_back source stmt.start in
    let end = skip_blanks (drop stmt.end source) stmt.end in
    let (low, before) = skip_back-Spaces source stmt.start in
    let blanks = skip_blanks-Spaces source stmt.end in
    let ends : stmt.end ≤ end = (skip_blanks_lem (drop stmt.end source) stmt.end).0 in
    let (past_cr, cr) = skip_byte-Spaces source stmt.end end 13 refl blanks in
    let (past_lf, lf) = skip_byte-Spaces source stmt.end (skip_byte source end 13) 10 refl cr in
    elim (Bool-cases (start == 0 || byte_is source (start - 1) (λ b. b == 10))) [
      | inl e ↦ rw e (record { starts = low; ends = omega arith; before = before; after = lf })
      | inr e ↦ rw e (record {
        starts = omega arith;
        ends = ends;
        before = λ i l h. absurd (omega arith);
        after = blanks;
      })
    ]

-- For a statement that starts in the source, `delete_statement` deletes a range that holds it, and
-- every byte of the range outside the statement is a blank, a carriage return or a newline.
pub delete_statement-OnlySpaces :
    (source : Text) (stmt : Range)
    → stmt.start ≤ byte_len source
    → (s : Splice) × (delete_statement source stmt ≡ some s)
      × (s.text ≡ [])
      × OnlySpaces (bytes source) stmt s.range
unfolding delete_statement
delete_statement-OnlySpaces source stmt h =
    let inside : ltb (length (bytes source)) stmt.start ≡ false =
      ground (arith, length-bytes source) in
    (
      record { range = delete_range (bytes source) stmt; text = [] },
      rw inside refl,
      refl,
      delete_range-OnlySpaces (bytes source) stmt,
    )
