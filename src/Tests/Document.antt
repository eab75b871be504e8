-- ===== src/Tests/Document.antt =====
-- A class with a method and its parameter, and a state of the class.
use witcherscript_language.Base.{
  ℕ, zero, suc, ◌+◌, ◌≡◌, refl, ap, subst, Option, none, some, List, [], ◌∷◌, Text, codes, is_empty,
  get_elem?, find, ◌&&◌, ◌||◌, arith, ◌↔◌,
}
use witcherscript_language.LineIndex.Defs.{SourceRange}
use witcherscript_language.EditPlan.Defs.{Range}
use witcherscript_language.Symbols.Kinds.{
  AccessLevel, SymbolKind, class, method, parameter, state, script, is_object_kind, import, final,
  specifier_from_keyword, specifier_keyword, timer, flavour_from_keyword, flavour_keyword,
}
use witcherscript_language.Symbols.Specifiers.{no_specifiers, specifiers_insert, specifiers_iter}
use witcherscript_language.Symbols.Symbol.{Symbol, state_class_name, short_name_from}
use witcherscript_language.Symbols.Document.{
  DocumentSymbols, no_symbols, push, by_id, build_indexes, top_level_by_name_filtered,
  type_by_name_filtered, enclosing_symbol_at,
}
use witcherscript_language.Symbols.Keywords.{
  lists, specifier_eq, specifier_from_keyword_iff, flavour_from_keyword_iff, specifiers_iter-insert,
  specifiers_iter_order,
}
use witcherscript_language.Symbols.Names.{short_name_from-state_class_name}
use witcherscript_language.Symbols.Indexes.{top_test, type_test}
use witcherscript_language.Symbols.Lookups.{
  IsFresh, top_level_by_name_filtered-build_indexes, type_by_name_filtered-build_indexes,
}
use witcherscript_language.Symbols.Building.{
  Contains, IsTree, build_indexes-total, push-IsFresh, no_symbols-IsFresh,
}
use witcherscript_language.Symbols.Enclosing.{Reaches, enclosing_symbol_at-total}

abbrev somewhere : SourceRange
somewhere = record {
  start = record { line = 0; character = 0 };
  end = record { line = 0; character = 0 };
}

abbrev bytes : ℕ → ℕ → Range
bytes a b = record { start = a; end = b }

abbrev pub plain : Text → SymbolKind → ℕ → ℕ → Option ℕ → Symbol
plain n k a b c = record {
  id = 0;
  name = n;
  kind = k;
  range = somewhere;
  selection_range = somewhere;
  byte_range = bytes a b;
  selection_byte_range = bytes a a;
  container = c;
  container_name = none;
  type_annotation = none;
  base_class = none;
  owner_class = none;
  state_class = none;
  flavour = none;
  annotations = [];
  access = AccessLevel.public;
  specifiers = no_specifiers;
  doc_comment = none;
  origin = script;
}

abbrev player : Symbol
player = plain (codes "CPlayer") class 0 40 none

abbrev jump : Symbol
jump = plain (codes "Jump") method 10 30 (some 0)

abbrev height : Symbol
height = plain (codes "height") parameter 16 22 (some 1)

abbrev pub idle : Symbol
idle = record (plain (codes "Idle") state 50 60 none) {
  owner_class = some (codes "CPlayer");
  state_class = some (codes "CPlayerStateIdle");
}

abbrev one : DocumentSymbols
one = (push player no_symbols).0

abbrev two : DocumentSymbols
two = (push jump one).0

abbrev three : DocumentSymbols
three = (push height two).0

abbrev four : DocumentSymbols
four = (push idle three).0

one-IsFresh : IsFresh one
one-IsFresh = (push-IsFresh player no_symbols no_symbols-IsFresh).0

two-IsFresh : IsFresh two
two-IsFresh = (push-IsFresh jump one one-IsFresh).0

three-IsFresh : IsFresh three
three-IsFresh = (push-IsFresh height two two-IsFresh).0

four-IsFresh : IsFresh four
four-IsFresh = (push-IsFresh idle three three-IsFresh).0

push-IsFresh_example :
    IsFresh four
    × (by_id four (push idle three).1 ≡ some (record idle { id = (push idle three).1 }))
push-IsFresh_example = push-IsFresh idle three three-IsFresh

abbrev InOrder : ℕ → List Symbol → Type 0
InOrder at [] = Unit
InOrder at (s ∷ ss) = Contains [] s.container at × InOrder (suc at) ss

in_order :
    (every ss : List Symbol) (at i : ℕ) (s : Symbol)
    → InOrder at ss
    → get_elem? ss i ≡ some s
    → Contains every s.container (at + i)
in_order every [] at i s h e = cc
in_order every (x ∷ ss) at zero s (h, k) e = below x.container s.container at (of_some e) h
  where
    of_some : some x ≡ some s → x.container ≡ s.container
    of_some q = ap (λ (o : Option Symbol). elim o [ none ↦ none | some y ↦ y.container ]) q

    below : (c d : Option ℕ) (at : ℕ) → c ≡ d → Contains [] c at → Contains every d (at + 0)
    below none none at q h = tt
    below none (some d) at q h = cc
    below (some c) none at q h = tt
    below (some c) (some d) at q h = let same : c ≡ d = cc in omega (arith, same, h)
in_order every (x ∷ ss) at (suc i) s (h, k) e =
    subst (Contains every s.container) (omega arith) (in_order every ss (suc at) i s k e)

four-IsTree : IsTree four.symbols
unfolding push
four-IsTree i s e =
    subst (Contains four.symbols s.container) (omega arith)
      (in_order four.symbols four.symbols 0 i s (tt, (omega arith, (omega arith, (tt, tt)))) e)

abbrev built : DocumentSymbols
built = (build_indexes-total four four-IsFresh four-IsTree).0

specifier_from_keyword_iff_example :
    (specifier_from_keyword (codes "final") ≡ some final)
    ↔ (codes "final" ≡ specifier_keyword final)
specifier_from_keyword_iff_example = specifier_from_keyword_iff (codes "final") final

flavour_from_keyword_iff_example :
    (flavour_from_keyword (codes "timer") ≡ some timer) ↔ (codes "timer" ≡ flavour_keyword timer)
flavour_from_keyword_iff_example = flavour_from_keyword_iff (codes "timer") timer

specifiers_iter-insert_example :
    lists (specifiers_iter (specifiers_insert final no_specifiers)) import
    ≡ (specifier_eq final import || lists (specifiers_iter no_specifiers) import)
specifiers_iter-insert_example = specifiers_iter-insert final import no_specifiers

specifiers_iter_order_example :
    specifiers_iter (specifiers_insert final (specifiers_insert import no_specifiers))
    ≡ specifiers_iter (specifiers_insert import (specifiers_insert final no_specifiers))
specifiers_iter_order_example = specifiers_iter_order final import no_specifiers

short_name_from-state_class_name_example :
    short_name_from idle (state_class_name (codes "CPlayer") (codes "Idle")) ≡ codes "Idle"
short_name_from-state_class_name_example =
    short_name_from-state_class_name idle (codes "CPlayer") (codes "Idle") refl refl
      (unfold is_empty in refl)

top_level_by_name_filtered-build_indexes_example :
    top_level_by_name_filtered built (codes "CPlayer") is_object_kind
    ≡ some (find (λ s. top_test (codes "CPlayer") s && is_object_kind s.kind) four.symbols)
top_level_by_name_filtered-build_indexes_example =
    top_level_by_name_filtered-build_indexes four built (codes "CPlayer") is_object_kind
      four-IsFresh (build_indexes-total four four-IsFresh four-IsTree).1

type_by_name_filtered-build_indexes_example :
    type_by_name_filtered built (codes "CPlayerStateIdle") is_object_kind
    ≡ some
        (find (λ s. type_test (codes "CPlayerStateIdle") s && is_object_kind s.kind) four.symbols)
type_by_name_filtered-build_indexes_example =
    type_by_name_filtered-build_indexes four built (codes "CPlayerStateIdle") is_object_kind
      four-IsFresh (build_indexes-total four four-IsFresh four-IsTree).1

build_indexes-total_example : (built : DocumentSymbols) × (build_indexes four ≡ some built)
build_indexes-total_example = build_indexes-total four four-IsFresh four-IsTree

enclosing_symbol_at-total_example :
    Reaches 20 (method ∷ []) (enclosing_symbol_at built 20 (method ∷ []))
enclosing_symbol_at-total_example =
    enclosing_symbol_at-total four built 20 (method ∷ []) four-IsTree
      (build_indexes-total four four-IsFresh four-IsTree).1
