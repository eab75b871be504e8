-- ===== src/Symbols/Names.antt =====
-- The engine names of states and the short names in their declarations (src/symbols/types.rs).
use witcherscript_language.Base.{◌≡◌, refl, false, some, ◌++◌, Text, is_empty, strip_prefix-append}
use witcherscript_language.Symbols.Kinds.{state}
use witcherscript_language.Symbols.Symbol.{
  Symbol, state_class_infix, state_class_name, state_owner, short_name_from,
}

-- For a state with an owner, the short name of the owner's state class of a nonempty name is that
-- name.
pub short_name_from-state_class_name :
    (s : Symbol) (owner n : Text)
    → s.kind ≡ state
    → s.owner_class ≡ some owner
    → is_empty n ≡ false
    → short_name_from s (state_class_name owner n) ≡ n
unfolding short_name_from state_class_name
short_name_from-state_class_name s owner n is_state owned filled =
    rw
      (
        is_state,
        owned,
        strip_prefix-append owner (state_class_infix ++ n),
        strip_prefix-append state_class_infix n,
        filled,
        state_owner,
      )
      refl
