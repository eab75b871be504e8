-- ===== src/SymbolDb/Generics.antt =====
-- The members of the generic containers at a concrete type (src/resolve/symbol_db/generics.rs), with
-- the placeholders of src/builtins.rs.
use witcherscript_language.Base.{
  Bool, Option, none, some, is_some, unwrap_or, map_or, Text, codes, text_eq, ◌>>=◌, if◌then◌else◌,
}
use witcherscript_language.Types.Ty.{Ty, named, array, map}
use witcherscript_language.Types.Parse.{parse_generic_type, from_annotation}
use witcherscript_language.Symbols.Symbol.{Symbol}
use witcherscript_language.Workspace.Defs.{Definition}

abbrev pub generic_element_placeholder : Text
generic_element_placeholder = codes "T"

abbrev pub map_key_placeholder : Text
map_key_placeholder = codes "K"

abbrev pub map_value_placeholder : Text
map_value_placeholder = codes "V"

unfoldable pub is_generic_instance : Text → Bool
unfolding parse_generic_type
is_generic_instance container = is_some (parse_generic_type container)

-- the outer option is that of `from_annotation`
unfoldable pub parse_generic_instance : Text → Option (Option Ty)
unfolding is_generic_instance from_annotation
parse_generic_instance container =
    if is_generic_instance container
    then (from_annotation container >>= λ t. some (some t))
    else some none

unfoldable pub placeholder_binding : Text → Ty → Option Ty
unfolding text_eq
placeholder_binding placeholder (array element) =
    if text_eq placeholder generic_element_placeholder then some element else none
placeholder_binding placeholder (map key value) =
    if text_eq placeholder map_key_placeholder
    then some key
    else if text_eq placeholder map_value_placeholder
    then some value
    else none
placeholder_binding placeholder _ = none

unfoldable pub substitute_generics : Ty → Ty → Ty
unfolding placeholder_binding
substitute_generics (named n) container = unwrap_or (placeholder_binding n container) (named n)
substitute_generics (array element) container = array (substitute_generics element container)
substitute_generics (map key value) container =
    map (substitute_generics key container) (substitute_generics value container)
substitute_generics ty container = ty

unfoldable pub substitute_in_definition : Definition → Text → Ty → Definition
unfolding substitute_generics
substitute_in_definition def container_instance container =
    let s : Symbol = def.symbol in
    record def {
      symbol = record s {
        type_annotation =
            map_or s.type_annotation none (λ t. some (substitute_generics t container));
        container_name = map_or s.container_name none (λ _. some container_instance);
      };
    }
