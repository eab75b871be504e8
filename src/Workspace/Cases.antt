-- ===== src/Workspace/Cases.antt =====
-- The branches of the steps over a symbol, for statements on the index behind them (src/resolve/workspace_index/indices.rs).
use witcherscript_language.Base.{
  ◌≡◌, true, false, none, some, Text, text_key, is_some, Bool-cases, Option-cases, inl, inr,
  push_value, retain_and_prune, push_nested,
}
use witcherscript_language.Symbols.Symbol.{
  Symbol, type_name, requires_import, annotation_target_class_safe,
}
use witcherscript_language.Workspace.Defs.{WorkspaceIndex}
use witcherscript_language.Workspace.Index.{
  of_other, define, remove_symbol, insert_symbol, remove_native, remove_member, remove_extension,
  remove_state, remove_annotated, insert_native, insert_member, insert_extension, insert_state,
}

-- a top-level symbol taken out of, and put into, its map
abbrev pub unnamed : Text → Symbol → WorkspaceIndex → WorkspaceIndex
unnamed uri s self = record self {
  top_level_by_name = retain_and_prune text_key (type_name s) (of_other uri) self.top_level_by_name;
}

abbrev pub named : Text → Symbol → WorkspaceIndex → WorkspaceIndex
named uri s self = record self {
  top_level_by_name = push_value text_key (type_name s) (define uri s) self.top_level_by_name;
}

pub remove_symbol-cases :
    (P : WorkspaceIndex → Type 0) (uri : Text) (s : Symbol) (self : WorkspaceIndex)
    → (requires_import s ≡ true → P (remove_native uri s self))
    → (requires_import s ≡ false → is_some s.container ≡ true → P (remove_member uri s self))
    → (requires_import s ≡ false
        → is_some s.container ≡ false
        → P (
            remove_annotated uri s
              (remove_state uri s (remove_extension uri s (unnamed uri s self)))))
    → P (remove_symbol uri s self)
unfolding remove_symbol
remove_symbol-cases P uri s self a b c = elim (Bool-cases (requires_import s)) [
  | inl q ↦ rw q (a q)
  | inr q ↦ elim (Bool-cases (is_some s.container)) [
    | inl r ↦ rw (q, r) (b q r)
    | inr r ↦ rw (q, r) (c q r)
  ]
]

pub insert_symbol-cases :
    (P : WorkspaceIndex → Type 0) (uri : Text) (s : Symbol) (self : WorkspaceIndex)
    → (requires_import s ≡ true → P (insert_native uri s self))
    → (requires_import s ≡ false
        → (target : Text) → annotation_target_class_safe s ≡ some target
        → P (record self {
          annotated_members_by_type =
              push_nested text_key text_key target s.name
                (define uri s)
                self.annotated_members_by_type;
        }))
    → (requires_import s ≡ false
        → annotation_target_class_safe s ≡ none
        → is_some s.container ≡ true
        → P (insert_member uri s self))
    → (requires_import s ≡ false
        → annotation_target_class_safe s ≡ none
        → is_some s.container ≡ false
        → P (insert_state uri s (insert_extension uri s (named uri s self))))
    → P (insert_symbol uri s self)
unfolding insert_symbol
insert_symbol-cases P uri s self a b c d = elim (Bool-cases (requires_import s)) [
  | inl q ↦ rw q (a q)
  | inr q ↦ elim (Option-cases (annotation_target_class_safe s)) [
    | inr (t, found) ↦ rw (q, found) (b q t found)
    | inl out ↦ elim (Bool-cases (is_some s.container)) [
      | inl r ↦ rw (q, out, r) (c q out r)
      | inr r ↦ rw (q, out, r) (d q out r)
    ]
  ]
]
