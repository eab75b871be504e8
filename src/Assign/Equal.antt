-- ===== src/Assign/Equal.antt =====
-- The derived equalities of `Primitive` and `Type`.
use witcherscript_language.Base.{
  [], ◌∷◌, get_elem?, unwrap_or, ℕ, ◌≡◌, refl, sym, ap, ◌∙◌, Bool, true, false, ◌&&◌, text_eq,
  text_eq_refl, text_eq→eq, ◌==◌, ==→≡, arith,
}
use witcherscript_language.Types.Ty.{
  Ty, Primitive, void, primitive, named, array, map, null, unknown, bool, byte, int, int16, int8,
  uint16, uint32, uint64, float, name, string, string_ansi,
}

-- the discriminant
abbrev pub rank : Primitive → ℕ
rank bool = 0
rank byte = 1
rank int = 2
rank int16 = 3
rank int8 = 4
rank uint16 = 5
rank uint32 = 6
rank uint64 = 7
rank float = 8
rank name = 9
rank string = 10
rank string_ansi = 11

abbrev pub primitive_eq : Primitive → Primitive → Bool
primitive_eq p q = rank p == rank q

unfoldable pub ty_eq : Ty → Ty → Bool
ty_eq void t = elim t [ void ↦ true | _ ↦ false ]
ty_eq (primitive p) t = elim t [ primitive q ↦ primitive_eq p q | _ ↦ false ]
ty_eq (named n) t = elim t [ named m ↦ text_eq n m | _ ↦ false ]
ty_eq (array e) t = elim t [ array f ↦ ty_eq e f | _ ↦ false ]
ty_eq (map k v) t = elim t [ map l w ↦ ty_eq k l && ty_eq v w | _ ↦ false ]
ty_eq null t = elim t [ null ↦ true | _ ↦ false ]
ty_eq unknown t = elim t [ unknown ↦ true | _ ↦ false ]

abbrev unrank : ℕ → Primitive
unrank n =
    unwrap_or
      (get_elem?
        (bool ∷ byte ∷ int ∷ int16 ∷ int8 ∷ uint16 ∷ uint32 ∷ uint64 ∷ float ∷ name ∷ string
          ∷ string_ansi ∷ [])
        n)
      bool

unrank-rank : (p : Primitive) → unrank (rank p) ≡ p
unrank-rank p = elim p as (λ q. unrank (rank q) ≡ q) [
  | bool ↦ refl
  | byte ↦ refl
  | int ↦ refl
  | int16 ↦ refl
  | int8 ↦ refl
  | uint16 ↦ refl
  | uint32 ↦ refl
  | uint64 ↦ refl
  | float ↦ refl
  | name ↦ refl
  | string ↦ refl
  | string_ansi ↦ refl
]

pub primitive_eq→eq : (p q : Primitive) → primitive_eq p q ≡ true → p ≡ q
primitive_eq→eq p q e = sym (unrank-rank p) ∙ ap unrank (==→≡ (rank p) (rank q) e) ∙ unrank-rank q

pub ty_eq→eq : (s t : Ty) → ty_eq s t ≡ true → s ≡ t
unfolding ty_eq
ty_eq→eq void t e = ground arith
ty_eq→eq (primitive p) t e = ground (arith, primitive_eq→eq p)
ty_eq→eq (named n) t e =
    elim t as (λ u. ty_eq (named n) u ≡ true → named n ≡ u) [
      | named m ↦ λ e. ap named (text_eq→eq n m e)
      | _ ↦ λ e. cc
    ]
      e
ty_eq→eq (array x) t e =
    elim t as (λ u. ty_eq (array x) u ≡ true → array x ≡ u) [
      | array y ↦ λ e. ap array (ty_eq→eq x y e)
      | _ ↦ λ e. cc
    ]
      e
ty_eq→eq (map k v) t e =
    elim t as (λ u. ty_eq (map k v) u ≡ true → map k v ≡ u) [
      | map l w ↦ λ e. ground (ty_eq→eq k l, ty_eq→eq v w, arith)
      | _ ↦ λ e. cc
    ]
      e
ty_eq→eq null t e = ground arith
ty_eq→eq unknown t e = ground arith

pub ty_eq_refl : (t : Ty) → ty_eq t t ≡ true
unfolding ty_eq
ty_eq_refl void = refl
ty_eq_refl (primitive p) = ground arith
ty_eq_refl (named n) = text_eq_refl n
ty_eq_refl (array x) = ty_eq_refl x
ty_eq_refl (map k v) = ground (ty_eq_refl k, ty_eq_refl v, arith)
ty_eq_refl null = refl
ty_eq_refl unknown = refl
