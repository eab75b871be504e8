-- ===== src/Symbols/Symbol.antt =====
-- `Symbol` and what it says of itself (src/symbols/types.rs).
use witcherscript_language.Base.{
  ℕ, Bool, true, false, ◌&&◌, not, Option, none, some, List, [], ◌∷◌, ◌++◌, Text, codes, text_eq,
  text_key, contains, is_some, is_empty, unwrap_or, find, strip_prefix, if◌then◌else◌, ◌>>=◌,
}
use witcherscript_language.Types.Ty.{Ty}
use witcherscript_language.LineIndex.Defs.{SourceRange}
use witcherscript_language.EditPlan.Defs.{Range}
use witcherscript_language.Symbols.Kinds.{
  AccessLevel, FuncFlavour, SymbolKind, SymbolOrigin, import, state, function, method, field, class,
  struct, enum, native, script,
}
use witcherscript_language.Symbols.Specifiers.{Specifiers, has_specifier}

-- an index into the symbols of a document
abbrev pub SymbolId : Type 0
SymbolId = ℕ

pub record Annotation : Type 0 where
  pub name : Text
  pub argument : Option Text

pub record Symbol : Type 0 where
  pub id : SymbolId
  pub name : Text
  pub kind : SymbolKind
  pub range : SourceRange
  pub selection_range : SourceRange
  pub byte_range : Range
  pub selection_byte_range : Range
  pub container : Option SymbolId
  pub container_name : Option Text
  pub type_annotation : Option Ty
  pub base_class : Option Text
  pub owner_class : Option Text
  pub state_class : Option Text
  pub flavour : Option FuncFlavour
  pub annotations : List Annotation
  pub access : AccessLevel
  pub specifiers : Specifiers
  pub doc_comment : Option Text
  pub origin : SymbolOrigin

abbrev pub member_injecting_annotations : List Text
member_injecting_annotations =
    codes "addMethod" ∷ codes "wrapMethod" ∷ codes "replaceMethod" ∷ codes "addField" ∷ []

abbrev pub state_class_infix : Text
state_class_infix = codes "State"

unfoldable pub state_class_name : Text → Text → Text
state_class_name owner state_name = owner ++ (state_class_infix ++ state_name)

unfoldable pub type_name : Symbol → Text
type_name self = unwrap_or self.state_class self.name

unfoldable pub state_owner : Symbol → Option Text
state_owner self = elim self.kind [ state ↦ self.owner_class | _ ↦ none ]

unfoldable pub short_name_from : Symbol → Text → Text
unfolding state_owner strip_prefix is_empty
short_name_from self n =
    let short : Option Text = state_owner self >>= λ owner. strip_prefix owner n >>= λ rest.
    strip_prefix state_class_infix rest >>= λ short. if is_empty short then none else some short in
    unwrap_or short n

unfoldable pub requires_import : Symbol → Bool
requires_import self =
    elim self.origin [ native ↦ true | _ ↦ false ]
    && elim self.kind [ function ↦ true | method ↦ true | field ↦ true | _ ↦ false ]

unfoldable pub injecting_annotation : Symbol → Option Annotation
unfolding find contains text_eq
injecting_annotation self =
    find (λ a. contains text_key a.name member_injecting_annotations) self.annotations

unfoldable pub annotation_target_class : Symbol → Option Text
unfolding injecting_annotation
annotation_target_class self = injecting_annotation self >>= λ a. a.argument

unfoldable pub injecting_annotation_name : Symbol → Option Text
unfolding injecting_annotation
injecting_annotation_name self = injecting_annotation self >>= λ a. some a.name

unfoldable pub annotation_target_class_safe : Symbol → Option Text
unfolding annotation_target_class
annotation_target_class_safe self = elim self.kind [
  | function ↦ annotation_target_class self
  | field ↦ annotation_target_class self
  | _ ↦ none
]

unfoldable pub is_script_import : Symbol → Bool
unfolding has_specifier annotation_target_class_safe
is_script_import self =
    elim self.origin [ script ↦ true | _ ↦ false ]
    && has_specifier self.specifiers import
    && not (is_some (annotation_target_class_safe self))
    && elim self.kind [
      | class ↦ true
      | struct ↦ true
      | enum ↦ true
      | function ↦ true
      | method ↦ true
      | field ↦ true
      | _ ↦ false
    ]

-- the texts of `format!("in {o} extends {b}")` and the shorter forms
unfoldable pub detail_of : Option Text → Option Text → Option Text
detail_of (some b) (some o) = some (codes "in " ++ (o ++ (codes " extends " ++ b)))
detail_of (some b) none = some (codes "extends " ++ b)
detail_of none (some o) = some (codes "in " ++ o)
detail_of none none = none

unfoldable pub display_detail : Symbol → Option Text
unfolding detail_of
display_detail self = detail_of self.base_class self.owner_class
