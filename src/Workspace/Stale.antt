-- ===== src/Workspace/Stale.antt =====
-- An annotated symbol in a container (src/resolve/workspace_index/indices.rs).
use witcherscript_language.Base.{
  ◌≡◌, refl, ap, ◌∙◌, true, false, some, List, [], ◌∷◌, ◌++◌, Text, text_eq_refl, text_key, is_some,
  nested_entry, filter, if◌then◌else◌,
}
use witcherscript_language.Symbols.Symbol.{Symbol, requires_import, annotation_target_class_safe}
use witcherscript_language.Workspace.Defs.{Definition, WorkspaceIndex}
use witcherscript_language.Workspace.Index.{define, of_other, insert_symbol, remove_symbol}
use witcherscript_language.Workspace.Channel.Annotated.{
  annotated_at, annotated_new, annotated-remove, annotated-insert,
}
use witcherscript_language.Workspace.Lookup.{annotated_members}

held_at :
    (s : Symbol) (j : Text × Text)
    → requires_import s ≡ false
    → is_some s.container ≡ true
    → annotated_at s j ≡ false
held_at s j r h = rw (r, h) refl

-- A symbol that stands in a container and has an annotation that adds it to a class is put among the
-- class's annotated members, and the removal of the symbol leaves it there.
pub annotated_members-remove_symbol :
    (uri target : Text) (s : Symbol) (self : WorkspaceIndex)
    → requires_import s ≡ false
    → is_some s.container ≡ true
    → annotation_target_class_safe s ≡ some target
    → annotated_members (remove_symbol uri s (insert_symbol uri s self)) target s.name
      ≡ annotated_members self target s.name ++ define uri s ∷ []
unfolding annotated_members
annotated_members-remove_symbol uri target s self r h t =
    let index : WorkspaceIndex = insert_symbol uri s self in
    let members : List Definition =
      nested_entry text_key text_key target s.name index.annotated_members_by_type in
    annotated-remove uri s index (target, s.name)
    ∙ ap (λ b. if b then filter (of_other uri) members else members)
        (held_at s (target, s.name) r h)
    ∙ annotated-insert uri s self (target, s.name)
    ∙ ap
        (λ b.
          nested_entry text_key text_key target s.name self.annotated_members_by_type
          ++ (if b then define uri s ∷ [] else []))
        (new_at s target r t)
  where
    new_at :
        (s : Symbol) (target : Text)
        → requires_import s ≡ false
        → annotation_target_class_safe s ≡ some target
        → annotated_new s (target, s.name) ≡ true
    new_at s target r t = rw (r, t, text_eq_refl target, text_eq_refl s.name) refl
