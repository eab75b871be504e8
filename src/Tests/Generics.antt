-- ===== src/Tests/Generics.antt =====
-- A map of arrays, with names for its key and its value.
use witcherscript_language.Base.{codes}
use witcherscript_language.Types.Ty.{Ty, named, array, map}

abbrev member : Ty
member = map (named (codes "K")) (array (named (codes "V")))

abbrev player : Ty
player = named (codes "CPlayer")

abbrev name : Ty
name = named (codes "name")
