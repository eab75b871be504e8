-- ===== src/Assign/Defs.antt =====
-- `assignability`. The symbol database is an interface: the kind of the symbol that
-- `find_top_level` finds, and `inherits_from`.
use witcherscript_language.Base.{
  Bool, true, false, ◌||◌, Option, none, some, List, [], ◌∷◌, Text, ◌&&◌, if◌then◌else◌, any,
}
use witcherscript_language.Types.Ty.{
  Ty, Primitive, primitive, named, array, null, bool, byte, int, float, name, string,
}
use witcherscript_language.Symbols.Kinds.{SymbolKind, enum, is_class_like}
use witcherscript_language.Assign.Equal.{primitive_eq, ty_eq}

pub record SymbolDb : Type 0 where
  pub find_kind : Text → Option SymbolKind
  pub inherits_from : Text → Text → Bool

pub data CastKind : Type 0 where
  primitive_cast enum_int null_to_ref to_string object_to_bool : CastKind

pub data Assignability : Type 0 where
  identical : Assignability
  implicit_cast : CastKind → Assignability
  incompatible : Assignability

abbrev pub implicit_primitive_casts : List (Primitive × Primitive)
implicit_primitive_casts =
    (byte, bool)
    ∷ (int, bool)
    ∷ (float, bool)
    ∷ (string, bool)
    ∷ (int, byte)
    ∷ (byte, int)
    ∷ (byte, float)
    ∷ (int, float)
    ∷ (bool, string)
    ∷ (byte, string)
    ∷ (int, string)
    ∷ (float, string)
    ∷ (name, string)
    ∷ []

unfoldable pub primitive_assignability : Primitive → Primitive → Assignability
unfolding any
primitive_assignability from to =
    if any (λ (c : Primitive × Primitive). primitive_eq c.0 from && primitive_eq c.1 to)
      implicit_primitive_casts
    then implicit_cast primitive_cast
    else incompatible

-- two arrays, from what their elements give
unfoldable pub element_assignability : Assignability → Assignability
element_assignability identical = identical
element_assignability _ = incompatible

module _ (db : SymbolDb) where
  unfoldable pub is_enum : Text → Bool
  is_enum n = elim (db.find_kind n) [ some enum ↦ true | _ ↦ false ]

  unfoldable pub is_object_type : Text → Bool
  unfolding is_class_like
  is_object_type n = elim (db.find_kind n) [ none ↦ false | some k ↦ is_class_like k ]

  unfoldable pub is_stringifiable : Text → Bool
  unfolding is_enum is_object_type
  is_stringifiable n = is_enum n || is_object_type n

  unfoldable pub named_assignability : Text → Text → Assignability
  named_assignability from to = if db.inherits_from from to then identical else incompatible

  unfoldable pub enum_to_int : Text → Assignability
  unfolding is_enum
  enum_to_int n = if is_enum n then implicit_cast enum_int else incompatible

  -- a name into a primitive slot
  unfoldable pub named_to_primitive : Text → Primitive → Assignability
  unfolding enum_to_int is_stringifiable is_object_type
  named_to_primitive n int = enum_to_int n
  named_to_primitive n string = if is_stringifiable n then implicit_cast to_string else incompatible
  named_to_primitive n bool =
      if is_object_type n then implicit_cast object_to_bool else incompatible
  named_to_primitive n _ = incompatible

  -- the arms of the `match` other than the one of two arrays
  unfoldable pub flat_assignability : Ty → Ty → Assignability
  unfolding is_object_type named_assignability enum_to_int named_to_primitive
      primitive_assignability
  flat_assignability null (named t) =
      if is_object_type t then implicit_cast null_to_ref else incompatible
  flat_assignability (named f) (named t) = named_assignability f t
  flat_assignability (named n) (primitive p) = named_to_primitive n p
  flat_assignability (primitive int) (named n) = enum_to_int n
  flat_assignability (primitive p) (primitive q) = primitive_assignability p q
  flat_assignability _ _ = incompatible

  unfoldable pub assignability : Ty → Ty → Assignability
  unfolding ty_eq flat_assignability element_assignability
  assignability (array f) (array t) =
      let element = assignability f t in
      if ty_eq (array f) (array t) then identical else element_assignability element
  assignability from to = if ty_eq from to then identical else flat_assignability from to
