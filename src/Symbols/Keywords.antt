-- ===== src/Symbols/Keywords.antt =====
-- Keywords to specifiers and flavours and back, and the bitset of specifiers
-- (src/symbols/types.rs).
use witcherscript_language.Base.{
  ℕ, ◌==◌, ◌≡◌, ◌↔◌, refl, sym, ap, ◌∙◌, Bool, true, ◌||◌, ◌&&◌, some, List, [], ◌∷◌, Text, text_eq,
  text_eq→eq, All, any, filter, arith, Bool-cases, inl, inr, fun_ext,
}
use witcherscript_language.Types.Parse.{find_alias}
use witcherscript_language.Symbols.Kinds.{
  FuncFlavour, cleanup, flavour_keywords, flavour_from_keyword, flavour_keyword, Specifier, import,
  specifier_keywords, specifier_from_keyword, specifier_keyword,
}
use witcherscript_language.Symbols.Specifiers.{
  Specifiers, specifier_rank, render_order, specifiers_insert, has_specifier, specifiers_iter,
}

find_alias_sound :
    {A : Type 0} (word : A → Text) (table : List (Text × A)) (n : Text) (a : A)
    → All (λ (e : Text × A). e.0 ≡ word e.1) table
    → find_alias table n ≡ some a
    → n ≡ word a
unfolding find_alias
find_alias_sound word [] n a h e = cc
find_alias_sound word ((alias, b) ∷ rest) n a (h, k) e = elim (Bool-cases (text_eq alias n)) [
  | inl q ↦
      let same : some b ≡ some a = rw q at e in
      let b_is_a : b ≡ a = cc in sym (text_eq→eq alias n q) ∙ h ∙ ap word b_is_a
  | inr q ↦ find_alias_sound word rest n a k (rw q at e)
]

-- `from_keyword` returns a specifier exactly for that specifier's keyword.
pub specifier_from_keyword_iff :
    (keyword : Text) (s : Specifier)
    → (specifier_from_keyword keyword ≡ some s) ↔ (keyword ≡ specifier_keyword s)
unfolding specifier_from_keyword specifier_keyword text_eq
specifier_from_keyword_iff keyword s = (
  find_alias_sound specifier_keyword specifier_keywords keyword s
      (refl, (refl, (refl, (refl, (refl, (refl, (refl, (refl, (refl, (refl, (refl, tt))))))))))),
  λ e. ap specifier_from_keyword e ∙ back s,
)
  where
    back : (s : Specifier) → specifier_from_keyword (specifier_keyword s) ≡ some s
    back s = elim s as (λ t. specifier_from_keyword (specifier_keyword t) ≡ some t) [
      | import ↦ refl
      | _ ↦ refl
    ]

-- `from_keyword` returns a flavour exactly for that flavour's keyword.
pub flavour_from_keyword_iff :
    (keyword : Text) (f : FuncFlavour)
    → (flavour_from_keyword keyword ≡ some f) ↔ (keyword ≡ flavour_keyword f)
unfolding flavour_from_keyword flavour_keyword text_eq
flavour_from_keyword_iff keyword f = (
  find_alias_sound flavour_keyword flavour_keywords keyword f
      (refl, (refl, (refl, (refl, (refl, (refl, (refl, tt))))))),
  λ e. ap flavour_from_keyword e ∙ back f,
)
  where
    back : (f : FuncFlavour) → flavour_from_keyword (flavour_keyword f) ≡ some f
    back f = elim f as (λ t. flavour_from_keyword (flavour_keyword t) ≡ some t) [
      | cleanup ↦ refl
      | _ ↦ refl
    ]

abbrev pub specifier_eq : Specifier → Specifier → Bool
specifier_eq a b = specifier_rank a == specifier_rank b

-- the specifier stands in the list
abbrev pub lists : List Specifier → Specifier → Bool
lists l s = any (λ t. specifier_eq t s) l

has-insert :
    (a s : Specifier) (self : Specifiers)
    → has_specifier (specifiers_insert a self) s ≡ (specifier_eq a s || has_specifier self s)
unfolding has_specifier specifiers_insert
has-insert a s self = refl

any-filter :
    {A : Type 0} (bits : ℕ → Bool) (rank : A → ℕ) (n : ℕ) (l : List A)
    → any (λ t. rank t == n) (filter (λ t. bits (rank t)) l) ≡ (bits n && any (λ t. rank t == n) l)
unfolding filter any
any-filter bits rank n [] = ground arith
any-filter bits rank n (t ∷ l) = ground (arith, any-filter bits rank n l, agree (rank t))
  where
    agree : (m : ℕ) → m ≡ n → bits m ≡ bits n
    agree m e = ap bits e

all_listed : (s : Specifier) → lists render_order s ≡ true
unfolding any
all_listed s = elim s as (λ t. lists render_order t ≡ true) [ import ↦ refl | _ ↦ refl ]

listed-iter :
    (self : Specifiers) (s : Specifier) → lists (specifiers_iter self) s ≡ has_specifier self s
unfolding specifiers_iter has_specifier
listed-iter self s =
    any-filter self.bits specifier_rank (specifier_rank s) render_order
    ∙ ap (λ b. has_specifier self s && b) (all_listed s)
    ∙ and_true (has_specifier self s)
  where
    and_true : (b : Bool) → (b && true) ≡ b
    and_true b = ground arith

-- `iter` yields a specifier behind `insert` exactly if it was inserted or was there before.
pub specifiers_iter-insert :
    (a s : Specifier) (self : Specifiers)
    → lists (specifiers_iter (specifiers_insert a self)) s
      ≡ (specifier_eq a s || lists (specifiers_iter self) s)
specifiers_iter-insert a s self =
    listed-iter (specifiers_insert a self) s
    ∙ has-insert a s self
    ∙ ap (λ b. specifier_eq a s || b) (sym (listed-iter self s))

-- The order in which specifiers are inserted does not show in what `iter` yields.
pub specifiers_iter_order :
    (a b : Specifier) (self : Specifiers)
    → specifiers_iter (specifiers_insert a (specifiers_insert b self))
      ≡ specifiers_iter (specifiers_insert b (specifiers_insert a self))
unfolding specifiers_insert
specifiers_iter_order a b self =
    ap (λ (f : ℕ → Bool). specifiers_iter (record { bits = f }))
      (fun_ext (λ i. swap (specifier_rank a == i) (specifier_rank b == i) (self.bits i)))
  where
    swap : (x y z : Bool) → (x || (y || z)) ≡ (y || (x || z))
    swap x y z = ground arith
