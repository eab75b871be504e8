-- ===== src/Tests/Annotations.antt =====
-- A nested annotation.
use witcherscript_language.Base.{◌≡◌, refl, some, codes}
use witcherscript_language.Types.Ty.{Ty, array, map, named, primitive, name}
use witcherscript_language.Types.Trim.{trim, split_first, strip_last, is_whitespace}
use witcherscript_language.Types.Parse.{from_annotation}
use witcherscript_language.Types.Fuel.{from_annotation-total}

nested :
    from_annotation (codes " map< name , array<CEntity>> ")
    ≡ some (map (primitive name) (array (named (codes "CEntity"))))
unfolding from_annotation trim split_first strip_last is_whitespace
nested = refl

from_annotation-total_example : (t : Ty) × (from_annotation (codes "array<int>") ≡ some t)
from_annotation-total_example = from_annotation-total (codes "array<int>")
