-- ===== src/Types/Fuel.antt =====
-- The fuel of `from_annotation` (src/types/parse.rs), and the lengths of the arguments it reads.
use witcherscript_language.Base.{
  is_empty, ℕ, zero, suc, ◌+◌, ◌<◌, ◌≤◌, ◌≡◌, refl, ap, Bool, true, false, ◌||◌, Option, none, some,
  List, [], ◌∷◌, ◌++◌, Text, codes, text_eq, length, length-append, if◌then◌else◌, ◌>>=◌, arith,
  All, Bool-cases, Option-cases, inl, inr,
}
use witcherscript_language.Types.Ty.{Ty, array, map, void, unknown}
use witcherscript_language.Types.Trim.{
  trim, split_first, strip_last, length-trim, length-split_first, length-strip_last,
}
use witcherscript_language.Types.Parse.{
  parse_generic_type, split_from, split_type_args, is_split, next_depth, Form, array_of, map_of,
  other, form_of, generic_form, plain_annotation, from_annotation_fuel, from_annotation,
}

parse_generic_type-lt :
    (s ctor element : Text)
    → parse_generic_type s ≡ some (ctor, element)
    → length element < length s
unfolding parse_generic_type
parse_generic_type-lt s ctor element e = elim (Option-cases (split_first b'<' (trim s))) [
  | inl out ↦ no_pair (rw out at e)
  | inr ((p, r), found) ↦ elim (Option-cases (strip_last b'>' r)) [
    | inl out ↦ no_pair (rw (found, out) at e)
    | inr (inner, cut) ↦
        let same : (if_ok (trim p) (trim inner)) ≡ some (ctor, element) = rw (found, cut) at e in
        let is_element : element ≡ trim inner = ground arith in
        omega (
          arith,
          ap length is_element,
          length-trim inner,
          length-strip_last b'>' r inner cut,
          length-split_first b'<' (trim s) p r found,
          length-trim s,
        )
  ]
]
  where
    if_ok : Text → Text → Option (Text × Text)
    if_ok c d = if is_empty c || is_empty d then none else some (c, d)

    no_pair : ◌≡◌ {A = Option (Text × Text)} none (some (ctor, element)) → length element < length s
    no_pair h = cc

pub split_from-split :
    (c : ℕ) (s : Text) (depth : ℕ) (cur : Text)
    → is_split c depth ≡ true
    → split_from (c ∷ s) depth cur ≡ trim cur ∷ split_from s depth []
unfolding split_from
split_from-split c s depth cur e = rw (e, split_from)

pub split_from-more :
    (c : ℕ) (s : Text) (depth : ℕ) (cur : Text)
    → is_split c depth ≡ false
    → split_from (c ∷ s) depth cur ≡ split_from s (next_depth c depth) (cur ++ c ∷ [])
unfolding split_from
split_from-more c s depth cur e = rw (e, split_from)

pub generic_form-none : (s : Text) → parse_generic_type s ≡ none → generic_form s ≡ other
unfolding generic_form
generic_form-none s e = rw (e, generic_form)

pub generic_form-some :
    (s ctor args : Text)
    → parse_generic_type s ≡ some (ctor, args)
    → generic_form s ≡ form_of ctor (split_type_args args)
unfolding generic_form
generic_form-some s ctor args e = rw (e, generic_form)

abbrev Short : ℕ → List Text → Type 0
Short n = All (λ p. length p ≤ n)

split_from-Short :
    (s : Text) (depth : ℕ) (cur : Text) (n : ℕ)
    → length cur + length s ≤ n
    → Short n (split_from s depth cur)
split_from-Short [] depth cur n h = unfold split_from in (omega (arith, length-trim cur), tt)
split_from-Short (c ∷ s) depth cur n h = elim (Bool-cases (is_split c depth)) [
  | inl e ↦
      rw (split_from-split c s depth cur e)
        (omega (arith, length-trim cur), split_from-Short s depth [] n (omega arith))
  | inr e ↦ rw (split_from-more c s depth cur e) (
      split_from-Short s (next_depth c depth) (cur ++ c ∷ []) n
        (omega (arith, length-append cur (c ∷ []))))
]

abbrev ShortForm : ℕ → Form → Type 0
ShortForm n (array_of e) = length e < n
ShortForm n (map_of k v) = (length k < n) × (length v < n)
ShortForm n other = Unit

form_of-Short :
    (ctor : Text) (parts : List Text) (n m : ℕ)
    → m < n
    → Short m parts
    → ShortForm n (form_of ctor parts)
unfolding form_of
form_of-Short ctor [] n m h k = tt
form_of-Short ctor (a ∷ []) n m h k = elim (Bool-cases (text_eq ctor (codes "array"))) [
  | inl e ↦ rw e (omega (arith, k.0))
  | inr e ↦ rw e tt
]
form_of-Short ctor (a ∷ (b ∷ [])) n m h k = elim (Bool-cases (text_eq ctor (codes "map"))) [
  | inl e ↦ rw e (omega (arith, k.0), omega (arith, k.1.0))
  | inr e ↦ rw e tt
]
form_of-Short ctor (a ∷ (b ∷ (c ∷ d))) n m h k = tt

generic_form-Short : (s : Text) → ShortForm (length s) (generic_form s)
unfolding split_type_args
generic_form-Short s = elim (Option-cases (parse_generic_type s)) [
  | inl out ↦ rw (generic_form-none s out) tt
  | inr ((ctor, args), found) ↦ rw (generic_form-some s ctor args found) (
      form_of-Short ctor (split_from args 0 []) (length s) (length args)
        (parse_generic_type-lt s ctor args found)
        (split_from-Short args 0 [] (length args) (omega arith)))
]

-- the generic forms of `from_annotation`
unfoldable pub generic : ℕ → Text → Form → Option Ty
generic fuel trimmed form = elim form [
  | array_of element ↦ from_annotation_fuel fuel element >>= λ e. some (array e)
  | map_of key value ↦
      from_annotation_fuel fuel key >>= λ k. from_annotation_fuel fuel value >>= λ v. some (map k v)
  | other ↦ some (plain_annotation trimmed)
]

pub from_annotation_fuel-suc :
    (fuel : ℕ) (s : Text)
    → from_annotation_fuel (suc fuel) s ≡ (
        if is_empty (trim s)
        then some unknown
        else if text_eq (trim s) (codes "void")
        then some void
        else generic fuel (trim s) (generic_form (trim s)))
unfolding from_annotation_fuel generic
from_annotation_fuel-suc fuel s = refl

abbrev Reads : ℕ → Text → Type 0
Reads fuel s = (t : Ty) × (from_annotation_fuel fuel s ≡ some t)

generic-total :
    (fuel : ℕ) (trimmed : Text) (form : Form)
    → ((u : Text) → length u < length trimmed → Reads fuel u)
    → ShortForm (length trimmed) form
    → (t : Ty) × (generic fuel trimmed form ≡ some t)
unfolding generic
generic-total fuel trimmed (array_of e) total k = let (t, read) = total e k in (array t, rw read)
generic-total fuel trimmed (map_of k v) total (lk, lv) =
    let (t, read) = total k lk in let (u, read') = total v lv in (map t u, rw (read, read'))
generic-total fuel trimmed other total k = (plain_annotation trimmed, refl)

branch-total :
    (a b : Bool) (rest : Option Ty)
    → (t : Ty) × (rest ≡ some t)
    → (t : Ty) × ((if a then some unknown else if b then some void else rest) ≡ some t)
branch-total true b rest r = (unknown, refl)
branch-total false true rest r = (void, refl)
branch-total false false rest r = r

-- With fuel above its length every annotation is read.
pub from_annotation_fuel-total : (fuel : ℕ) (s : Text) → length s < fuel → Reads fuel s
from_annotation_fuel-total zero s h = elim h [ ]
from_annotation_fuel-total (suc fuel) s h = rw (from_annotation_fuel-suc fuel s) (
    branch-total (is_empty (trim s)) (text_eq (trim s) (codes "void")) _ (
      generic-total fuel (trim s) (generic_form (trim s))
        (λ u l. from_annotation_fuel-total fuel u (omega (arith, length-trim s)))
        (generic_form-Short (trim s))))

-- `from_annotation` reads every text.
pub from_annotation-total : (s : Text) → (t : Ty) × (from_annotation s ≡ some t)
unfolding from_annotation
from_annotation-total s = from_annotation_fuel-total (length s + 1) s (omega arith)
