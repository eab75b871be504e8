-- ===== src/Types/Parse.antt =====
-- Reading a type annotation (src/types/parse.rs and `parse_generic_type` of src/types/mod.rs).
-- The recursion takes fuel, and `none` means that it ran out.
use witcherscript_language.Base.{
  is_empty, ℕ, zero, suc, ◌+◌, ◌-◌, Bool, true, false, ◌&&◌, ◌||◌, Option, none, some, List, [],
  ◌∷◌, ◌++◌, Text, codes, text_eq, length, ◌==◌, if◌then◌else◌, ◌>>=◌, is_some,
}
use witcherscript_language.Types.Ty.{
  Ty, Primitive, void, primitive, named, array, map, unknown, bool, byte, int, int16, int8, uint16,
  uint32, uint64, float, name, string, string_ansi, to_db_string,
}
use witcherscript_language.Types.Trim.{trim, split_first, strip_last}

unfoldable pub parse_generic_type : Text → Option (Text × Text)
parse_generic_type s = split_first b'<' (trim s) >>= λ (p : Text × Text).
    strip_last b'>' p.1 >>= λ inner.
    let ctor = trim p.0 in
    let element = trim inner in
    if is_empty ctor || is_empty element then none else some (ctor, element)

unfoldable pub lookup_ctor : Text → Text
unfolding parse_generic_type
lookup_ctor type_name = elim (parse_generic_type type_name) [
  | none ↦ type_name
  | some (ctor, _) ↦ ctor
]

-- `to_lookup_ctor`
unfoldable pub to_lookup_ctor : Ty → Option Text
unfolding lookup_ctor to_db_string
to_lookup_ctor t = to_db_string t >>= λ raw. some (lookup_ctor raw)

abbrev pub primitive_aliases : List (Text × Primitive)
primitive_aliases =
    (codes "bool", bool)
    ∷ (codes "Bool", bool)
    ∷ (codes "byte", byte)
    ∷ (codes "Uint8", byte)
    ∷ (codes "int", int)
    ∷ (codes "Int32", int)
    ∷ (codes "Int16", int16)
    ∷ (codes "Int8", int8)
    ∷ (codes "Uint16", uint16)
    ∷ (codes "Uint32", uint32)
    ∷ (codes "Uint64", uint64)
    ∷ (codes "float", float)
    ∷ (codes "Float", float)
    ∷ (codes "name", name)
    ∷ (codes "CName", name)
    ∷ (codes "string", string)
    ∷ (codes "String", string)
    ∷ (codes "StringAnsi", string_ansi)
    ∷ []

-- `iter().find(|(alias, _)| *alias == name)`
unfoldable pub find_alias {ℓ} : {A : Type ℓ} → List (Text × A) → Text → Option A
unfolding text_eq
find_alias [] n = none
find_alias ((alias, p) ∷ rest) n = if text_eq alias n then some p else find_alias rest n

unfoldable pub is_builtin_type_name : Text → Bool
unfolding find_alias
is_builtin_type_name n = text_eq n (codes "void") || is_some (find_alias primitive_aliases n)

abbrev pub coercion_table : List (Text × List Primitive)
coercion_table =
    (codes "CBehTreeValBool", bool ∷ [])
    ∷ (codes "CBehTreeValInt", int ∷ [])
    ∷ (codes "CBehTreeValFloat", int ∷ float ∷ [])
    ∷ (codes "CBehTreeValString", string ∷ [])
    ∷ (codes "CBehTreeValCName", name ∷ [])
    ∷ []

unfoldable pub default_coercion_accepts : Text → Option (List Primitive)
unfolding find_alias
default_coercion_accepts n = find_alias coercion_table n

unfoldable pub next_depth : ℕ → ℕ → ℕ
next_depth c depth = if c == b'<' then depth + 1 else if c == b'>' then depth - 1 else depth

-- a comma outside every bracket
unfoldable pub is_split : ℕ → ℕ → Bool
is_split c depth = c == b',' && depth == 0

-- the loop of `split_type_args`; `cur` is the text from `start` up to here
unfoldable pub split_from : Text → ℕ → Text → List Text
unfolding next_depth is_split
split_from [] depth cur = trim cur ∷ []
split_from (c ∷ s) depth cur = elim (is_split c depth) [
  | true ↦ trim cur ∷ split_from s depth []
  | false ↦ split_from s (next_depth c depth) (cur ++ c ∷ [])
]

unfoldable pub split_type_args : Text → List Text
unfolding split_from
split_type_args args = split_from args 0 []

-- what follows the generic forms
unfoldable pub plain_annotation : Text → Ty
unfolding find_alias
plain_annotation trimmed = elim (find_alias primitive_aliases trimmed) [
  | some p ↦ primitive p
  | none ↦ named trimmed
]

-- the forms that the `match` tells apart
pub data Form : Type 0 where
  array_of : Text → Form
  map_of : Text → Text → Form
  other : Form

unfoldable pub form_of : Text → List Text → Form
unfolding text_eq
form_of ctor (element ∷ []) = if text_eq ctor (codes "array") then array_of element else other
form_of ctor (key ∷ value ∷ []) = if text_eq ctor (codes "map") then map_of key value else other
form_of ctor _ = other

unfoldable pub generic_form : Text → Form
unfolding parse_generic_type split_type_args form_of
generic_form trimmed = elim (parse_generic_type trimmed) [
  | none ↦ other
  | some (ctor, args) ↦ form_of ctor (split_type_args args)
]

unfoldable pub from_annotation_fuel : ℕ → Text → Option Ty
unfolding trim is_empty generic_form plain_annotation
from_annotation_fuel zero s = none
from_annotation_fuel (suc fuel) s =
    let trimmed = trim s in
    let generic : Option Ty = elim (generic_form trimmed) [
      | array_of element ↦ from_annotation_fuel fuel element >>= λ e. some (array e)
      | map_of key value ↦ from_annotation_fuel fuel key >>= λ k.
          from_annotation_fuel fuel value >>= λ v. some (map k v)
      | other ↦ some (plain_annotation trimmed)
    ] in
    if is_empty trimmed
    then some unknown
    else if text_eq trimmed (codes "void")
    then some void
    else generic

-- a text of n characters needs fuel n + 1 at most
unfoldable pub from_annotation : Text → Option Ty
unfolding from_annotation_fuel
from_annotation s = from_annotation_fuel (length s + 1) s
