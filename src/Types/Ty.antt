-- ===== src/Types/Ty.antt =====
-- `Type`, `Primitive` and their spellings (src/types/mod.rs).
use witcherscript_language.Base.{Option, none, some, ◌++◌, Text, codes, ◌>>=◌}

pub data Primitive : Type 0 where
  bool byte int int16 int8 uint16 uint32 uint64 float name string string_ansi : Primitive

pub data Ty : Type 0 where
  void : Ty
  primitive : Primitive → Ty
  named : Text → Ty
  array : Ty → Ty
  map : Ty → Ty → Ty
  null : Ty
  unknown : Ty

unfoldable pub canonical : Primitive → Text
canonical bool = codes "bool"
canonical byte = codes "byte"
canonical int = codes "int"
canonical int16 = codes "Int16"
canonical int8 = codes "Int8"
canonical uint16 = codes "Uint16"
canonical uint32 = codes "Uint32"
canonical uint64 = codes "Uint64"
canonical float = codes "float"
canonical name = codes "name"
canonical string = codes "string"
canonical string_ansi = codes "StringAnsi"

-- `format!("array<{}>", e)` and `format!("map<{}, {}>", k, v)`
abbrev pub array_text : Text → Text
array_text e = codes "array<" ++ (e ++ codes ">")

abbrev pub map_text : Text → Text → Text
map_text k v = codes "map<" ++ (k ++ (codes ", " ++ (v ++ codes ">")))

unfoldable pub to_db_string : Ty → Option Text
unfolding canonical
to_db_string void = some (codes "void")
to_db_string (primitive p) = some (canonical p)
to_db_string (named n) = some n
to_db_string (array e) = to_db_string e >>= λ s. some (array_text s)
to_db_string (map k v) = to_db_string k >>= λ s. to_db_string v >>= λ t. some (map_text s t)
to_db_string null = none
to_db_string unknown = none

-- `Display`
unfoldable pub display : Ty → Text
unfolding canonical
display void = codes "void"
display (primitive p) = canonical p
display (named n) = n
display (array e) = array_text (display e)
display (map k v) = map_text (display k) (display v)
display null = codes "NULL"
display unknown = codes "?"
