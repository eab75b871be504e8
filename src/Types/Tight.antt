-- ===== src/Types/Tight.antt =====
-- The ends of a displayed type, and its passage through `split_type_args` (src/types/).
use witcherscript_language.Base.{
  is_empty, ℕ, ◌≡◌, refl, ap, sym, ◌∙◌, false, [], ◌∷◌, ◌++◌, append_assoc, Text, codes, arith, All,
}
use witcherscript_language.Types.Ty.{
  Ty, Primitive, void, primitive, named, array, map, null, unknown, bool, byte, int, int16, int8,
  uint16, uint32, uint64, float, name, string, string_ansi, display, array_text, map_text,
  canonical,
}
use witcherscript_language.Types.Trim.{trim, trim_start, trim_end, is_whitespace, trim_end-append}
use witcherscript_language.Types.Walks.{Walks, Plain, Named, Walks-Plain, Walks-array, Walks-map}

pub primitive-Plain : (p : Primitive) → All Plain (canonical p)
unfolding canonical is_whitespace
primitive-Plain bool = ground arith
primitive-Plain byte = ground arith
primitive-Plain int = ground arith
primitive-Plain int16 = ground arith
primitive-Plain int8 = ground arith
primitive-Plain uint16 = ground arith
primitive-Plain uint32 = ground arith
primitive-Plain uint64 = ground arith
primitive-Plain float = ground arith
primitive-Plain name = ground arith
primitive-Plain string = ground arith
primitive-Plain string_ansi = ground arith

-- no white space at either end, and not empty
pub record Tight (x : Text) : Type 0 where
  pub head : ℕ
  pub behind : Text
  pub starts : x ≡ head ∷ behind
  pub head_black : is_whitespace head ≡ false
  pub before : Text
  pub last : ℕ
  pub ends : x ≡ before ++ last ∷ []
  pub last_black : is_whitespace last ≡ false

trim_start-cons : (c : ℕ) (x : Text) → is_whitespace c ≡ false → trim_start (c ∷ x) ≡ c ∷ x
unfolding trim_start
trim_start-cons c x e = rw e refl

pub Tight-trim : (x : Text) → Tight x → trim x ≡ x
unfolding trim
Tight-trim x t =
    ap trim_end
      (ap trim_start t.starts ∙ trim_start-cons t.head t.behind t.head_black ∙ sym t.starts)
    ∙ ap trim_end t.ends
    ∙ trim_end-append t.before t.last t.last_black
    ∙ sym t.ends

pub Tight-filled : (x : Text) → Tight x → is_empty x ≡ false
unfolding is_empty
Tight-filled x t = ap is_empty t.starts

pub Tight-append : (a m b : Text) → Tight a → Tight b → Tight (a ++ (m ++ b))
Tight-append a m b s t = record {
  head = s.head;
  behind = s.behind ++ (m ++ b);
  starts = ap (λ x. x ++ (m ++ b)) s.starts;
  head_black = s.head_black;
  before = a ++ (m ++ t.before);
  last = t.last;
  ends = ap (λ x. a ++ (m ++ x)) t.ends ∙ regroup a m t.before (t.last ∷ []);
  last_black = t.last_black;
}
  where
    regroup : (a b c d : Text) → a ++ (b ++ (c ++ d)) ≡ (a ++ (b ++ c)) ++ d
    regroup a b c d = simp append_assoc

record Ended (x : Text) : Type 0 where
  before : Text
  last : ℕ
  ends : x ≡ before ++ last ∷ []
  last_black : is_whitespace last ≡ false

Plain-Ended : (c : ℕ) (x : Text) → All Plain (c ∷ x) → Ended (c ∷ x)
Plain-Ended c [] (h, k) = record { before = []; last = c; ends = refl; last_black = h.0 }
Plain-Ended c (d ∷ x) (h, k) =
    let e = Plain-Ended d x k in
    record {
      before = c ∷ e.before;
      last = e.last;
      ends = ap (λ y. c ∷ y) e.ends;
      last_black = e.last_black;
    }

pub Plain-Tight : (x : Text) → is_empty x ≡ false → All Plain x → Tight x
unfolding is_empty
Plain-Tight [] e h = cc
Plain-Tight (c ∷ x) e h =
    let end = Plain-Ended c x h in
    record {
      head = c;
      behind = x;
      starts = refl;
      head_black = h.0.0;
      before = end.before;
      last = end.last;
      ends = end.ends;
      last_black = end.last_black;
    }

pub array_text-Tight : (x : Text) → Tight (array_text x)
unfolding is_whitespace
array_text-Tight x = record {
  head = b'a';
  behind = codes "rray<" ++ (x ++ codes ">");
  starts = refl;
  head_black = refl;
  before = codes "array<" ++ x;
  last = b'>';
  ends = sym (append_assoc (codes "array<") x (codes ">"));
  last_black = refl;
}

pub map_text-Tight : (x y : Text) → Tight (map_text x y)
unfolding is_whitespace
map_text-Tight x y = record {
  head = b'm';
  behind = codes "ap<" ++ (x ++ (codes ", " ++ (y ++ codes ">")));
  starts = refl;
  head_black = refl;
  before = codes "map<" ++ (x ++ (codes ", " ++ y));
  last = b'>';
  ends = regroup x y;
  last_black = refl;
}
  where
    regroup : (x y : Text) → map_text x y ≡ (codes "map<" ++ (x ++ (codes ", " ++ y))) ++ b'>' ∷ []
    regroup x y = simp append_assoc

canonical-filled : (p : Primitive) → is_empty (canonical p) ≡ false
unfolding canonical is_empty
canonical-filled p = elim p as (λ q. is_empty (canonical q) ≡ false) [ bool ↦ refl | _ ↦ refl ]

pub display-Tight : (t : Ty) → Named t → Tight (display t)
unfolding display
display-Tight void h =
    Plain-Tight (codes "void") (unfold is_empty in refl) (unfold is_whitespace in ground arith)
display-Tight (primitive p) h = Plain-Tight (canonical p) (canonical-filled p) (primitive-Plain p)
display-Tight (named n) h = Plain-Tight n h.filled h.chars
display-Tight (array e) h = array_text-Tight (display e)
display-Tight (map k v) h = map_text-Tight (display k) (display v)
display-Tight null h = absurd h
display-Tight unknown h = absurd h

pub display-Walks : (t : Ty) → Named t → Walks (display t)
unfolding display
display-Walks void h = Walks-Plain (codes "void") (unfold is_whitespace in ground arith)
display-Walks (primitive p) h = Walks-Plain (canonical p) (primitive-Plain p)
display-Walks (named n) h = Walks-Plain n h.chars
display-Walks (array e) h = Walks-array (display e) (display-Walks e h)
display-Walks (map k v) h =
    Walks-map (display k) (display v) (display-Walks k h.0) (display-Walks v h.1)
display-Walks null h = absurd h
display-Walks unknown h = absurd h
