-- ===== src/Tests/Displayed.antt =====
-- `map<name, array<CEntity>>`.
use witcherscript_language.Base.{◌≡◌, refl, some, codes, arith, is_empty, text_eq}
use witcherscript_language.Types.Ty.{array, map, named, primitive, name, display}
use witcherscript_language.Types.Trim.{is_whitespace}
use witcherscript_language.Types.Parse.{from_annotation, find_alias}
use witcherscript_language.Types.Walks.{IsName}
use witcherscript_language.Types.RoundTrip.{from_annotation-display}

entity-IsName : IsName (codes "CEntity")
unfolding is_empty is_whitespace find_alias text_eq
entity-IsName = record { filled = refl; chars = ground arith; no_alias = refl; not_void = refl }

from_annotation-display_example :
    from_annotation (display (map (primitive name) (array (named (codes "CEntity")))))
    ≡ some (map (primitive name) (array (named (codes "CEntity"))))
from_annotation-display_example =
    from_annotation-display (map (primitive name) (array (named (codes "CEntity"))))
      (tt, entity-IsName)
