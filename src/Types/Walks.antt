-- ===== src/Types/Walks.antt =====
-- How `split_type_args` passes over the parts of one argument.
use witcherscript_language.Base.{
  is_empty, ℕ, suc, ◌+◌, ◌≡◌, ◌≢◌, refl, ap, sym, ◌∙◌, subst, false, none, [], ◌∷◌, ◌++◌,
  append_assoc, append-nil, Text, codes, text_eq, arith, All, ◌==◌,
}
use witcherscript_language.Types.Ty.{
  Ty, void, primitive, named, array, map, null, unknown, array_text, map_text,
}
use witcherscript_language.Types.Trim.{is_whitespace}
use witcherscript_language.Types.Parse.{
  split_from, is_split, next_depth, find_alias, primitive_aliases,
}
use witcherscript_language.Types.Fuel.{split_from-more}

-- a character of an identifier, as far as annotations tell
abbrev pub Plain : ℕ → Type 0
Plain c = (is_whitespace c ≡ false) × (c ≢ b'<') × (c ≢ b'>') × (c ≢ b',')

-- a name of a class, struct, enum or state
pub record IsName (n : Text) : Type 0 where
  pub filled : is_empty n ≡ false
  pub chars : All Plain n
  pub no_alias : find_alias primitive_aliases n ≡ none
  pub not_void : text_eq n (codes "void") ≡ false

-- the types that an annotation can name
abbrev pub Named : Ty → Type 0
Named void = Unit
Named (primitive p) = Unit
Named (named n) = IsName n
Named (array e) = Named e
Named (map k v) = Named k × Named v
Named null = ⊥
Named unknown = ⊥

abbrev pub depth : Ty → ℕ
depth (array e) = suc (depth e)
depth (map k v) = suc (depth k + depth v)
depth _ = 0

-- the text passes through the splitter as a part of one argument
abbrev pub Walks : Text → Type 0
Walks x = (r : Text) (d : ℕ) (cur : Text) → split_from (x ++ r) d cur ≡ split_from r d (cur ++ x)

-- and so it does within brackets
abbrev WalksIn : Text → Type 0
WalksIn x =
    (r : Text) (d : ℕ) (cur : Text)
    → split_from (x ++ r) (suc d) cur ≡ split_from r (suc d) (cur ++ x)

Plain-step : (c : ℕ) (d : ℕ) → Plain c → (is_split c d ≡ false) × (next_depth c d ≡ d)
unfolding is_split next_depth
Plain-step c d h = (ground arith, ground arith)

pub Walks-Plain : (x : Text) → All Plain x → Walks x
Walks-Plain [] h r d cur = ap (split_from r d) (sym (append-nil cur))
Walks-Plain (c ∷ x) (hc, hx) r d cur =
    let (stays, same) = Plain-step c d hc in
    split_from-more c (x ++ r) d cur stays
    ∙ ap (λ e. split_from (x ++ r) e (cur ++ c ∷ [])) same
    ∙ Walks-Plain x hx r d (cur ++ c ∷ [])
    ∙ ap (split_from r d) (append_assoc cur (c ∷ []) x)

WalksIn-append : (x y : Text) → WalksIn x → WalksIn y → WalksIn (x ++ y)
WalksIn-append x y wx wy r d cur =
    ap (λ t. split_from t (suc d) cur) (append_assoc x y r)
    ∙ wx (y ++ r) d cur
    ∙ wy r d (cur ++ x)
    ∙ ap (split_from r (suc d)) (append_assoc cur x y)

within_brackets : (c d : ℕ) → is_split c (suc d) ≡ false
unfolding is_split
within_brackets c d = ground arith

pub same_depth : (c d : ℕ) → (c == b'<') ≡ false → (c == b'>') ≡ false → next_depth c d ≡ d
unfolding next_depth
same_depth c d e f = rw (e, f) refl

WalksIn-comma : WalksIn (codes ", ")
WalksIn-comma r d cur =
    split_from-more b',' (b' ' ∷ r) (suc d) cur (within_brackets b',' d)
    ∙ ap (λ e. split_from (b' ' ∷ r) e (cur ++ b',' ∷ [])) (same_depth b',' (suc d) refl refl)
    ∙ split_from-more b' ' r (suc d) (cur ++ b',' ∷ []) (within_brackets b' ' d)
    ∙ ap (λ e. split_from r e ((cur ++ b',' ∷ []) ++ b' ' ∷ [])) (same_depth b' ' (suc d) refl refl)
    ∙ ap (split_from r (suc d)) (append_assoc cur (b',' ∷ []) (b' ' ∷ []))

-- `<`, a text that walks within brackets, and `>`
Walks-bracket : (x : Text) → WalksIn x → Walks (b'<' ∷ (x ++ b'>' ∷ []))
Walks-bracket x w r d cur =
    split_from-more b'<' ((x ++ b'>' ∷ []) ++ r) d cur (unfold is_split in refl)
    ∙ ap₃ (append_assoc x (b'>' ∷ []) r) opens
    ∙ w (b'>' ∷ r) d (cur ++ b'<' ∷ [])
    ∙ split_from-more b'>' r (suc d) ((cur ++ b'<' ∷ []) ++ x) (unfold is_split in refl)
    ∙ ap₄ closes
    ∙ ap (split_from r d) (around cur x)
  where
    opens : next_depth b'<' d ≡ suc d
    opens = unfold next_depth in omega arith

    closes : next_depth b'>' (suc d) ≡ d
    closes = unfold next_depth in omega arith

    ap₃ :
        {s t : Text} {e f : ℕ}
        → s ≡ t
        → e ≡ f
        → split_from s e (cur ++ b'<' ∷ []) ≡ split_from t f (cur ++ b'<' ∷ [])
    ap₃ p q = cc

    ap₄ :
        {e f : ℕ}
        → e ≡ f
        → split_from r e (((cur ++ b'<' ∷ []) ++ x) ++ b'>' ∷ [])
          ≡ split_from r f (((cur ++ b'<' ∷ []) ++ x) ++ b'>' ∷ [])
    ap₄ q = cc

    around : (c y : Text) → ((c ++ b'<' ∷ []) ++ y) ++ b'>' ∷ [] ≡ c ++ b'<' ∷ (y ++ b'>' ∷ [])
    around c y = simp append_assoc

Walks-append : (x y : Text) → Walks x → Walks y → Walks (x ++ y)
Walks-append x y wx wy r d cur =
    ap (λ t. split_from t d cur) (append_assoc x y r)
    ∙ wx (y ++ r) d cur
    ∙ wy r d (cur ++ x)
    ∙ ap (split_from r d) (append_assoc cur x y)

inside : (x : Text) → Walks x → WalksIn x
inside x w r d cur = w r (suc d) cur

pub letters : All Plain (codes "array") × All Plain (codes "map")
unfolding is_whitespace
letters = (ground arith, ground arith)

pub Walks-array : (x : Text) → Walks x → Walks (array_text x)
Walks-array x w =
    Walks-append (codes "array") (b'<' ∷ (x ++ b'>' ∷ [])) (Walks-Plain (codes "array") letters.0)
      (Walks-bracket x (inside x w))

pub Walks-map : (x y : Text) → Walks x → Walks y → Walks (map_text x y)
Walks-map x y wx wy = subst Walks (regroup x y) (
    Walks-append (codes "map") (b'<' ∷ ((x ++ (codes ", " ++ y)) ++ b'>' ∷ []))
      (Walks-Plain (codes "map") letters.1)
      (Walks-bracket (x ++ (codes ", " ++ y)) (
        WalksIn-append x (codes ", " ++ y) (inside x wx)
          (WalksIn-append (codes ", ") y WalksIn-comma (inside y wy)))))
  where
    regroup :
        (x y : Text)
        → codes "map" ++ (b'<' ∷ ((x ++ (codes ", " ++ y)) ++ b'>' ∷ [])) ≡ map_text x y
    regroup x y = simp append_assoc
