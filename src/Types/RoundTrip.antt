-- ===== src/Types/RoundTrip.antt =====
-- From a type to its displayed form and back (src/types/).
use witcherscript_language.Base.{
  is_empty, ℕ, zero, suc, ◌+◌, ◌<◌, ◌≤◌, ◌≡◌, refl, ap, sym, ◌∙◌, true, false, none, some, [], ◌∷◌,
  ◌++◌, append_assoc, append-nil, Text, codes, text_eq, length, length-append, arith, All,
}
use witcherscript_language.Types.Ty.{
  Ty, Primitive, void, primitive, named, array, map, null, unknown, bool, display, array_text,
  map_text, canonical,
}
use witcherscript_language.Types.Trim.{
  trim, trim_start, is_whitespace, split_first, strip_last, strip_last-append,
}
use witcherscript_language.Types.Parse.{
  parse_generic_type, split_from, split_type_args, is_split, array_of, map_of, other, form_of,
  generic_form, plain_annotation, from_annotation_fuel, from_annotation, find_alias,
}
use witcherscript_language.Types.Fuel.{
  split_from-split, split_from-more, generic_form-none, generic_form-some, generic,
  from_annotation_fuel-suc,
}
use witcherscript_language.Types.Walks.{Walks, Plain, Named, depth, same_depth, letters}
use witcherscript_language.Types.Tight.{
  primitive-Plain, Tight, Tight-trim, Tight-filled, Tight-append, Plain-Tight, array_text-Tight,
  map_text-Tight, display-Tight, display-Walks,
}

split_first-none : (x : Text) → All Plain x → split_first b'<' x ≡ none
unfolding split_first
split_first-none [] h = refl
split_first-none (c ∷ x) (h, k) = ground (arith, split_first-none x k)

parse_generic_type-some :
    (s before behind inner : Text)
    → Tight s
    → split_first b'<' s ≡ some (before, behind)
    → strip_last b'>' behind ≡ some inner
    → Tight before
    → Tight inner
    → parse_generic_type s ≡ some (before, inner)
unfolding parse_generic_type
parse_generic_type-some s before behind inner ts first last tb ti =
    rw
      (
        Tight-trim s ts,
        first,
        last,
        Tight-trim before tb,
        Tight-trim inner ti,
        Tight-filled before tb,
        Tight-filled inner ti,
      )
      refl

word_array : Tight (codes "array")
word_array = Plain-Tight (codes "array") (unfold is_empty in refl) letters.0

word_map : Tight (codes "map")
word_map = Plain-Tight (codes "map") (unfold is_empty in refl) letters.1

split_type_args-one : (x : Text) → Walks x → Tight x → split_type_args x ≡ x ∷ []
unfolding split_type_args
split_type_args-one x w t =
    ap (λ y. split_from y 0 []) (sym (append-nil x))
    ∙ w [] 0 []
    ∙ unfold split_from in ap (λ y. y ∷ []) (Tight-trim x t)

generic_form-array : (x : Text) → Walks x → Tight x → generic_form (array_text x) ≡ array_of x
unfolding form_of
generic_form-array x w t =
    generic_form-some (array_text x) (codes "array") x (
      parse_generic_type-some (array_text x) (codes "array") (x ++ codes ">") x (array_text-Tight x)
        (unfold split_first in refl) (strip_last-append b'>' x) word_array t)
    ∙ ap (form_of (codes "array")) (split_type_args-one x w t)
    ∙ unfold text_eq in refl

trim-blank : (x : Text) → trim (b' ' ∷ x) ≡ trim x
unfolding trim trim_start is_whitespace
trim-blank x = refl

comma_splits : is_split b',' 0 ≡ true
unfolding is_split
comma_splits = refl

blank_stays : is_split b' ' 0 ≡ false
unfolding is_split
blank_stays = refl

split_type_args-two :
    (k v : Text)
    → Walks k
    → Walks v
    → Tight k
    → Tight v
    → split_type_args (k ++ (codes ", " ++ v)) ≡ k ∷ v ∷ []
unfolding split_type_args
split_type_args-two k v wk wv tk tv =
    wk (codes ", " ++ v) 0 []
    ∙ split_from-split b',' (b' ' ∷ v) 0 k comma_splits
    ∙ ap (λ l. trim k ∷ l)
        (split_from-more b' ' v 0 [] blank_stays
          ∙ ap (λ e. split_from v e (b' ' ∷ [])) (same_depth b' ' 0 refl refl)
          ∙ ap (λ y. split_from y 0 (b' ' ∷ [])) (sym (append-nil v))
          ∙ wv [] 0 (b' ' ∷ [])
          ∙ unfold split_from in ap (λ y. y ∷ []) (trim-blank v ∙ Tight-trim v tv))
    ∙ ap (λ y. y ∷ v ∷ []) (Tight-trim k tk)

generic_form-map :
    (k v : Text) → Walks k → Walks v → Tight k → Tight v → generic_form (map_text k v) ≡ map_of k v
unfolding form_of
generic_form-map k v wk wv tk tv =
    let args = k ++ (codes ", " ++ v) in
    generic_form-some (map_text k v) (codes "map") args (
      parse_generic_type-some (map_text k v) (codes "map") (k ++ (codes ", " ++ (v ++ codes ">")))
        args (map_text-Tight k v) (unfold split_first in refl)
        (ap (strip_last b'>') (regroup k v) ∙ strip_last-append b'>' args) word_map
        (Tight-append k (codes ", ") v tk tv))
    ∙ ap (form_of (codes "map")) (split_type_args-two k v wk wv tk tv)
    ∙ unfold text_eq in refl
  where
    regroup :
        (k v : Text) → k ++ (codes ", " ++ (v ++ codes ">")) ≡ (k ++ (codes ", " ++ v)) ++ codes ">"
    regroup k v = simp append_assoc

generic_form-Plain : (x : Text) → Tight x → All Plain x → generic_form x ≡ other
unfolding parse_generic_type
generic_form-Plain x t h = generic_form-none x (rw (Tight-trim x t, split_first-none x h) refl)

canonical_alias : (p : Primitive) → plain_annotation (canonical p) ≡ primitive p
unfolding plain_annotation canonical find_alias text_eq
canonical_alias p = elim p as (λ q. plain_annotation (canonical q) ≡ primitive q) [
  | bool ↦ refl
  | _ ↦ refl
]

canonical-not_void : (p : Primitive) → text_eq (canonical p) (codes "void") ≡ false
unfolding canonical text_eq
canonical-not_void p = elim p as (λ q. text_eq (canonical q) (codes "void") ≡ false) [
  | bool ↦ refl
  | _ ↦ refl
]

-- one step on a text that is neither empty nor `void`
step :
    (fuel : ℕ) (x : Text)
    → Tight x
    → text_eq x (codes "void") ≡ false
    → from_annotation_fuel (suc fuel) x ≡ generic fuel x (generic_form x)
step fuel x t v = from_annotation_fuel-suc fuel x ∙ rw (Tight-trim x t, Tight-filled x t, v) refl

from_annotation_fuel-display :
    (t : Ty) (fuel : ℕ) → Named t → depth t < fuel → from_annotation_fuel fuel (display t) ≡ some t
unfolding display generic
from_annotation_fuel-display t zero h l = elim l [ ]
from_annotation_fuel-display void (suc fuel) h l =
    from_annotation_fuel-suc fuel (codes "void")
    ∙ rw (Tight-trim (codes "void") (display-Tight void tt)) (unfold is_empty text_eq in refl)
from_annotation_fuel-display (primitive p) (suc fuel) h l =
    step fuel (canonical p) (display-Tight (primitive p) tt) (canonical-not_void p)
    ∙ rw (generic_form-Plain (canonical p) (display-Tight (primitive p) tt) (primitive-Plain p))
        (ap some (canonical_alias p))
from_annotation_fuel-display (named n) (suc fuel) h l =
    step fuel n (display-Tight (named n) h) h.not_void
    ∙ rw (generic_form-Plain n (display-Tight (named n) h) h.chars)
        (ap some (unfold plain_annotation in rw h.no_alias refl))
from_annotation_fuel-display (array e) (suc fuel) h l =
    step fuel (array_text (display e)) (array_text-Tight (display e)) (unfold text_eq in refl)
    ∙ rw
        (
          generic_form-array (display e) (display-Walks e h) (display-Tight e h),
          from_annotation_fuel-display e fuel h (omega arith),
        )
        refl
from_annotation_fuel-display (map k v) (suc fuel) h l =
    step fuel (map_text (display k) (display v)) (map_text-Tight (display k) (display v))
      (unfold text_eq in refl)
    ∙ rw
        (
          generic_form-map (display k) (display v) (display-Walks k h.0) (display-Walks v h.1)
              (display-Tight k h.0) (display-Tight v h.1),
          from_annotation_fuel-display k fuel h.0 (omega arith),
          from_annotation_fuel-display v fuel h.1 (omega arith),
        )
        refl
from_annotation_fuel-display null (suc fuel) h l = absurd h
from_annotation_fuel-display unknown (suc fuel) h l = absurd h

length-display : (t : Ty) → Named t → depth t ≤ length (display t)
unfolding display
length-display (array e) h = omega (
  arith,
  length-display e h,
  length-append (codes "array<") (display e ++ codes ">"),
  length-append (display e) (codes ">"),
)
length-display (map k v) h = omega (
  arith,
  length-display k h.0,
  length-display v h.1,
  length-append (codes "map<") (display k ++ (codes ", " ++ (display v ++ codes ">"))),
  length-append (display k) (codes ", " ++ (display v ++ codes ">")),
  length-append (codes ", ") (display v ++ codes ">"),
  length-append (display v) (codes ">"),
)
length-display _ h = omega arith

-- Reading the displayed form of a type gives the type back, for every type built from `void`, the
-- primitives, names, arrays and maps, where a name is not empty, is no alias and not `void`, and
-- has no white space, bracket or comma.
pub from_annotation-display : (t : Ty) → Named t → from_annotation (display t) ≡ some t
unfolding from_annotation
from_annotation-display t h =
    from_annotation_fuel-display t (length (display t) + 1) h (omega (arith, length-display t h))
