-- ===== src/Tests/Slots.antt =====
-- A database of one class, its base class and an enum.
use witcherscript_language.Base.{
  ◌≡◌, ◌↔◌, refl, ◌&&◌, ◌||◌, none, some, codes, text_eq, if◌then◌else◌,
}
use witcherscript_language.Types.Ty.{array, named, primitive, int}
use witcherscript_language.Assign.Equal.{ty_eq}
use witcherscript_language.Assign.Defs.{
  SymbolDb, identical, implicit_cast, enum_int, assignability, flat_assignability,
}
use witcherscript_language.Symbols.Kinds.{enum, class}
use witcherscript_language.Assign.Sub.{Subtype, assignability-Subtype}

abbrev small_db : SymbolDb
small_db = record {
  find_kind = λ n.
      if text_eq n (codes "EColor")
      then some enum
      else if text_eq n (codes "CActor") || text_eq n (codes "CPlayer")
      then some class
      else none;
  inherits_from = λ a b. text_eq a b || text_eq a (codes "CPlayer") && text_eq b (codes "CActor");
}

enum_slot : assignability small_db (primitive int) (named (codes "EColor")) ≡ implicit_cast enum_int
unfolding assignability ty_eq flat_assignability text_eq
enum_slot = refl

assignability-Subtype_example :
    (assignability small_db (array (named (codes "CPlayer"))) (array (named (codes "CActor")))
      ≡ identical)
    ↔ Subtype small_db (array (named (codes "CPlayer"))) (array (named (codes "CActor")))
assignability-Subtype_example =
    assignability-Subtype small_db (array (named (codes "CPlayer")))
      (array (named (codes "CActor")))
