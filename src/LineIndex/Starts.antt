-- ===== src/LineIndex/Starts.antt =====
-- The line starts of a text by its characters, and what they say of a prefix of it.
use witcherscript_language.Base.{
  ℕ, suc, ◌+◌, ◌≤◌, ◌≡◌, refl, sym, subst, ap, ◌∙◌, some, List, [], ◌∷◌, ◌++◌, append_assoc,
  append-nil, Text, length, get_elem?, get_elem?-append, ◌==◌, if◌then◌else◌, unwrap_or, arith,
  Bool-cases, inl, inr,
}
use witcherscript_language.LineIndex.Utf.{
  bytes, byte_len, encode_utf8, len_utf8, len_utf8-pos, byte_len-append, utf16_len, len_utf16,
}
use witcherscript_language.LineIndex.Defs.{starts_from, count_up_to}

unfoldable pub starts_of : Text → ℕ → List ℕ
starts_of [] i = []
starts_of (c ∷ s) i =
    let later = starts_of s (i + len_utf8 c) in if c == 10 then (i + len_utf8 c) ∷ later else later

starts_from-encode :
    (c : ℕ) (rest : List ℕ) (i : ℕ)
    → starts_from (encode_utf8 c ++ rest) i ≡ (
        if c == 10
        then (i + len_utf8 c) ∷ starts_from rest (i + len_utf8 c)
        else starts_from rest (i + len_utf8 c))
unfolding starts_from encode_utf8 len_utf8
starts_from-encode c rest i = ground arith

-- No byte of another character is a newline.
pub starts_from-bytes : (s : Text) (i : ℕ) → starts_from (bytes s) i ≡ starts_of s i
unfolding starts_from bytes starts_of
starts_from-bytes [] i = refl
starts_from-bytes (c ∷ s) i =
    starts_from-encode c (bytes s) i
    ∙ ap (λ (t : List ℕ). if c == 10 then (i + len_utf8 c) ∷ t else t)
        (starts_from-bytes s (i + len_utf8 c))

pub starts_of-append :
    (p r : Text) (i : ℕ) → starts_of (p ++ r) i ≡ starts_of p i ++ starts_of r (i + byte_len p)
unfolding starts_of byte_len
starts_of-append [] r i = ap (starts_of r) (omega arith)
starts_of-append (c ∷ p) r i =
    let reach : i + len_utf8 c + byte_len p ≡ i + (len_utf8 c + byte_len p) = omega arith in
    let rest =
      starts_of-append p r (i + len_utf8 c)
      ∙ ap (λ j. starts_of p (i + len_utf8 c) ++ starts_of r j) reach in
    ground arith

pub length-starts_of : (s : Text) (i : ℕ) → length (starts_of s i) ≤ byte_len s
unfolding starts_of byte_len
length-starts_of [] i = omega arith
length-starts_of (c ∷ s) i = ground (arith, len_utf8-pos c, length-starts_of s (i + len_utf8 c))

pub utf16_len-le : (s : Text) → utf16_len s ≤ byte_len s
unfolding utf16_len byte_len len_utf16 len_utf8
utf16_len-le [] = omega arith
utf16_len-le (c ∷ s) = ground (arith, utf16_len-le s)

-- the starts within a prefix are not beyond it
count-within :
    (p : Text) (i byte : ℕ) (rest : List ℕ)
    → i + byte_len p ≤ byte
    → count_up_to (starts_of p i ++ rest) byte ≡ length (starts_of p i) + count_up_to rest byte
unfolding starts_of byte_len count_up_to
count-within [] i byte rest h = omega arith
count-within (c ∷ p) i byte rest h = ground (arith, count-within p (i + len_utf8 c) byte rest)

-- and those behind it are
count-behind : (r : Text) (byte i : ℕ) → byte ≤ i → count_up_to (starts_of r i) byte ≡ 0
unfolding starts_of count_up_to
count-behind [] byte i h = refl
count-behind (c ∷ r) byte i h = ground (arith, len_utf8-pos c, count-behind r byte (i + len_utf8 c))

pub count_up_to-prefix :
    (p r : Text) → count_up_to (starts_of (p ++ r) 0) (byte_len p) ≡ length (starts_of p 0)
count_up_to-prefix p r = omega (
  arith,
  ap (λ t. count_up_to t (byte_len p)) (starts_of-append p r 0),
  count-within p 0 (byte_len p) (starts_of r (0 + byte_len p)) (omega arith),
  count-behind r (byte_len p) (0 + byte_len p) (omega arith),
)

-- the start of the line that a prefix ends in, where the line so far began at `start`
unfoldable pub last_start : Text → ℕ → ℕ → ℕ
last_start [] start i = start
last_start (c ∷ s) start i =
    last_start s (if c == 10 then i + len_utf8 c else start) (i + len_utf8 c)

pub get_elem?-last :
    (p : Text) (start i : ℕ) (rest : List ℕ)
    → get_elem? (start ∷ (starts_of p i ++ rest)) (length (starts_of p i))
      ≡ some (last_start p start i)
unfolding starts_of last_start
get_elem?-last [] start i rest = refl
get_elem?-last (c ∷ p) start i rest = elim (Bool-cases (c == 10)) [
  | inl e ↦ rw e (get_elem?-last p (i + len_utf8 c) (i + len_utf8 c) rest)
  | inr e ↦ rw e (get_elem?-last p start (i + len_utf8 c) rest)
]

pub get_elem?-next :
    (p : Text) (start i : ℕ) (rest : List ℕ)
    → get_elem? (start ∷ (starts_of p i ++ rest)) (length (starts_of p i) + 1) ≡ get_elem? rest 0
get_elem?-next p start i rest =
    ap (get_elem? (start ∷ (starts_of p i ++ rest))) step ∙ get_elem?-append (starts_of p i) rest 0
  where
    step : length (starts_of p i) + 1 ≡ suc (length (starts_of p i) + 0)
    step = omega arith

-- `text` up to `start` is a prefix, and the rest of the line.
pub record LineOf (p : Text) (start : ℕ) : Type 0 where
  pub before : Text
  pub line : Text
  pub parts : p ≡ before ++ line
  pub starts : start ≡ byte_len before

one_char : (c : ℕ) → byte_len (c ∷ []) ≡ len_utf8 c
unfolding byte_len
one_char c = omega arith

no_chars : byte_len [] ≡ 0
unfolding byte_len
no_chars = refl

regroup_line : (p : Text) (c : ℕ) (s : Text) → ((p ++ c ∷ []) ++ []) ++ s ≡ p ++ c ∷ s
regroup_line p c s = simp (append-nil, append_assoc)

regroup_char : (p q : Text) (c : ℕ) (s : Text) → (p ++ (q ++ c ∷ [])) ++ s ≡ (p ++ q) ++ c ∷ s
regroup_char p q c s = simp append_assoc

pub last_start-LineOf :
    (done cur s : Text) (start i : ℕ)
    → start ≡ byte_len done
    → i ≡ byte_len done + byte_len cur
    → LineOf ((done ++ cur) ++ s) (last_start s start i)
unfolding last_start
last_start-LineOf done cur [] start i e f = record {
  before = done;
  line = cur;
  parts = append-nil (done ++ cur);
  starts = e;
}
last_start-LineOf done cur (c ∷ s) start i e f =
    let size : byte_len (c ∷ []) ≡ len_utf8 c = one_char c in
    elim (Bool-cases (c == 10)) [
      | inl nl ↦ rw nl (
          subst (λ p. LineOf p (last_start s (i + len_utf8 c) (i + len_utf8 c)))
            (regroup_line (done ++ cur) c s)
            (last_start-LineOf ((done ++ cur) ++ c ∷ []) [] s (i + len_utf8 c) (i + len_utf8 c)
              (omega (arith, byte_len-append (done ++ cur) (c ∷ []), byte_len-append done cur))
              (omega (
                arith,
                byte_len-append (done ++ cur) (c ∷ []),
                byte_len-append done cur,
                no_chars,
              ))))
      | inr more ↦ rw more (
          subst (λ p. LineOf p (last_start s start (i + len_utf8 c))) (regroup_char done cur c s)
            (last_start-LineOf done (cur ++ c ∷ []) s start (i + len_utf8 c) e
              (omega (arith, byte_len-append cur (c ∷ [])))))
    ]

-- where the line that a text begins in ends: its newline, or its end
pub record LineEnd (r : Text) (i end : ℕ) : Type 0 where
  pub line : Text
  pub after : Text
  pub parts : r ≡ line ++ after
  pub ends : end ≡ i + byte_len line

pub first_start-LineEnd :
    (r : Text) (i : ℕ) → LineEnd r i (unwrap_or (get_elem? (starts_of r i) 0) (i + byte_len r))
unfolding starts_of byte_len
first_start-LineEnd [] i = record { line = []; after = []; parts = refl; ends = refl }
first_start-LineEnd (c ∷ r) i = elim (Bool-cases (c == 10)) [
  | inl nl ↦ rw nl (record { line = c ∷ []; after = r; parts = refl; ends = omega arith })
  | inr more ↦
      let rest = first_start-LineEnd r (i + len_utf8 c) in
      let reach : i + len_utf8 c + byte_len r ≡ i + (len_utf8 c + byte_len r) = omega arith in
      rw more (record {
        line = c ∷ rest.line;
        after = rest.after;
        parts = ap (λ t. c ∷ t) rest.parts;
        ends =
            ap (unwrap_or (get_elem? (starts_of r (i + len_utf8 c)) 0)) (sym reach)
            ∙ rest.ends
            ∙ omega arith;
      })
]
