-- ===== src/Symbols/Kinds.antt =====
-- The enumerations of src/symbols/types.rs, with their keywords and tests.
use witcherscript_language.Base.{
  ℕ, ◌==◌, Bool, true, false, Option, none, some, List, [], ◌∷◌, Text, codes, leb,
}
use witcherscript_language.Types.Parse.{find_alias}

pub data AccessLevel : Type 0 where
  private protected public : AccessLevel

-- the derived order
abbrev pub access_rank : AccessLevel → ℕ
access_rank private = 0
access_rank protected = 1
access_rank public = 2

abbrev pub access_le : AccessLevel → AccessLevel → Bool
access_le a b = leb (access_rank a) (access_rank b)

unfoldable pub access_keyword : AccessLevel → Option Text
access_keyword private = some (codes "private")
access_keyword protected = some (codes "protected")
access_keyword public = none

pub data FuncFlavour : Type 0 where
  cleanup entry exec quest reward storyscene timer : FuncFlavour

-- the arms of the `match` in order
abbrev pub flavour_keywords : List (Text × FuncFlavour)
flavour_keywords =
    (codes "cleanup", cleanup)
    ∷ (codes "entry", entry)
    ∷ (codes "exec", exec)
    ∷ (codes "quest", quest)
    ∷ (codes "reward", reward)
    ∷ (codes "storyscene", storyscene)
    ∷ (codes "timer", timer)
    ∷ []

unfoldable pub flavour_from_keyword : Text → Option FuncFlavour
unfolding find_alias
flavour_from_keyword keyword = find_alias flavour_keywords keyword

unfoldable pub flavour_keyword : FuncFlavour → Text
flavour_keyword cleanup = codes "cleanup"
flavour_keyword entry = codes "entry"
flavour_keyword exec = codes "exec"
flavour_keyword quest = codes "quest"
flavour_keyword reward = codes "reward"
flavour_keyword storyscene = codes "storyscene"
flavour_keyword timer = codes "timer"

pub data Specifier : Type 0 where
  import final latent abstract statemachine editable saved const inlined optional out : Specifier

abbrev pub specifier_keywords : List (Text × Specifier)
specifier_keywords =
    (codes "import", import)
    ∷ (codes "final", final)
    ∷ (codes "latent", latent)
    ∷ (codes "abstract", abstract)
    ∷ (codes "statemachine", statemachine)
    ∷ (codes "editable", editable)
    ∷ (codes "saved", saved)
    ∷ (codes "const", const)
    ∷ (codes "inlined", inlined)
    ∷ (codes "optional", optional)
    ∷ (codes "out", out)
    ∷ []

unfoldable pub specifier_from_keyword : Text → Option Specifier
unfolding find_alias
specifier_from_keyword keyword = find_alias specifier_keywords keyword

unfoldable pub specifier_keyword : Specifier → Text
specifier_keyword import = codes "import"
specifier_keyword final = codes "final"
specifier_keyword latent = codes "latent"
specifier_keyword abstract = codes "abstract"
specifier_keyword statemachine = codes "statemachine"
specifier_keyword editable = codes "editable"
specifier_keyword saved = codes "saved"
specifier_keyword const = codes "const"
specifier_keyword inlined = codes "inlined"
specifier_keyword optional = codes "optional"
specifier_keyword out = codes "out"

pub data SymbolKind : Type 0 where
  class native_type struct enum enum_member function method field variable parameter state event :
      SymbolKind

-- the discriminant, by which the derived equality compares
abbrev pub kind_rank : SymbolKind → ℕ
kind_rank class = 0
kind_rank native_type = 1
kind_rank struct = 2
kind_rank enum = 3
kind_rank enum_member = 4
kind_rank function = 5
kind_rank method = 6
kind_rank field = 7
kind_rank variable = 8
kind_rank parameter = 9
kind_rank state = 10
kind_rank event = 11

abbrev pub kind_eq : SymbolKind → SymbolKind → Bool
kind_eq a b = kind_rank a == kind_rank b

unfoldable pub is_type : SymbolKind → Bool
is_type class = true
is_type native_type = true
is_type struct = true
is_type state = true
is_type enum = true
is_type _ = false

unfoldable pub is_object_kind : SymbolKind → Bool
is_object_kind class = true
is_object_kind native_type = true
is_object_kind struct = true
is_object_kind state = true
is_object_kind _ = false

unfoldable pub extends_by_type_name : SymbolKind → Bool
extends_by_type_name class = true
extends_by_type_name native_type = true
extends_by_type_name struct = true
extends_by_type_name _ = false

unfoldable pub is_class_like : SymbolKind → Bool
is_class_like class = true
is_class_like state = true
is_class_like _ = false

unfoldable pub is_callable : SymbolKind → Bool
is_callable function = true
is_callable event = true
is_callable method = true
is_callable _ = false

unfoldable pub is_outline : SymbolKind → Bool
is_outline variable = false
is_outline parameter = false
is_outline _ = true

unfoldable pub is_instantiable : SymbolKind → Bool
is_instantiable class = true
is_instantiable struct = true
is_instantiable state = true
is_instantiable _ = false

pub data SymbolOrigin : Type 0 where
  script builtin native : SymbolOrigin
