-- ===== src/Symbols/Specifiers.antt =====
-- `Specifiers`, a bitset over the specifiers (src/symbols/types.rs). The `u16` is read by its bits.
use witcherscript_language.Base.{ℕ, ◌==◌, Bool, false, ◌||◌, List, [], ◌∷◌, filter}
use witcherscript_language.Symbols.Kinds.{
  Specifier, import, final, latent, abstract, statemachine, editable, saved, const, inlined,
  optional, out,
}

pub record Specifiers : Type 0 where
  pub bits : ℕ → Bool

-- `specifier as u16`
abbrev pub specifier_rank : Specifier → ℕ
specifier_rank import = 0
specifier_rank final = 1
specifier_rank latent = 2
specifier_rank abstract = 3
specifier_rank statemachine = 4
specifier_rank editable = 5
specifier_rank saved = 6
specifier_rank const = 7
specifier_rank inlined = 8
specifier_rank optional = 9
specifier_rank out = 10

abbrev pub no_specifiers : Specifiers
no_specifiers = record { bits = λ i. false }

abbrev pub render_order : List Specifier
render_order =
    import ∷ final ∷ latent ∷ abstract ∷ statemachine ∷ editable ∷ saved ∷ const ∷ inlined
    ∷ optional ∷ out ∷ []

-- `self.0 |= 1 << specifier as u16`
unfoldable pub specifiers_insert : Specifier → Specifiers → Specifiers
specifiers_insert s self = record { bits = λ i. specifier_rank s == i || self.bits i }

-- `self.0 & (1 << specifier as u16) != 0`
unfoldable pub has_specifier : Specifiers → Specifier → Bool
has_specifier self s = self.bits (specifier_rank s)

unfoldable pub specifiers_iter : Specifiers → List Specifier
unfolding has_specifier filter
specifiers_iter self = filter (has_specifier self) render_order

unfoldable pub is_optional : Specifiers → Bool
unfolding has_specifier
is_optional self = has_specifier self optional

unfoldable pub is_out : Specifiers → Bool
unfolding has_specifier
is_out self = has_specifier self out

unfoldable pub is_abstract : Specifiers → Bool
unfolding has_specifier
is_abstract self = has_specifier self abstract

unfoldable pub is_state_machine : Specifiers → Bool
unfolding has_specifier
is_state_machine self = has_specifier self statemachine
