-- ===== src/SymbolDb/Substituted.antt =====
-- Which names the substitution leaves in a type (src/resolve/symbol_db/generics.rs).
use witcherscript_language.Base.{Bool, false, ◌&&◌, ◌||◌, Text, text_eq}
use witcherscript_language.Types.Ty.{Ty, named, array, map}

-- the name stands in the type
unfoldable pub mentions : Text → Ty → Bool
mentions n (named m) = text_eq m n
mentions n (array element) = mentions n element
mentions n (map key value) = mentions n key || mentions n value
mentions n _ = false

-- the names of a type behind a replacement of the name `p`
abbrev pub replaced : Text → Text → Ty → Ty → Bool
replaced n p ty by = mentions p ty && mentions n by
