-- ===== src/Workspace/Steps.antt =====
-- Which maps each part of a step over a symbol changes (src/resolve/workspace_index/indices.rs).
use witcherscript_language.Base.{
  ◌≡◌, refl, ap, ◌∙◌, [], Text, text_key, is_some, push_value, retain_and_prune, Bool-cases,
  Option-cases, inl, inr,
}
use witcherscript_language.Symbols.Kinds.{enum_member, state, kind_eq, extends_by_type_name}
use witcherscript_language.Symbols.Symbol.{
  Symbol, type_name, requires_import, annotation_target_class_safe,
}
use witcherscript_language.Workspace.Defs.{WorkspaceIndex}
use witcherscript_language.Workspace.Index.{
  of_other, define, remove_symbol, insert_symbol, remove_native, remove_member, remove_extension,
  remove_state, remove_annotated, insert_native, insert_member, insert_extension, insert_state,
}

pub remove_native-keeps :
    (uri : Text) (s : Symbol) (self : WorkspaceIndex)
    → remove_native uri s self ≡ record self {
      native_functions_by_name = (remove_native uri s self).native_functions_by_name;
      native_member_by_type = (remove_native uri s self).native_member_by_type;
    }
unfolding remove_native
remove_native-keeps uri s self = elim (Option-cases s.container_name) [
  | inl out ↦ rw out refl
  | inr (c, found) ↦ rw found refl
]

pub remove_extension-keeps :
    (uri : Text) (s : Symbol) (self : WorkspaceIndex)
    → remove_extension uri s self ≡ record self {
      superclass_by_name = (remove_extension uri s self).superclass_by_name;
      subclasses_by_name = (remove_extension uri s self).subclasses_by_name;
    }
unfolding remove_extension
remove_extension-keeps uri s self = elim (Bool-cases (extends_by_type_name s.kind)) [
  | inl q ↦ elim (Option-cases s.base_class) [
    | inl out ↦ rw (q, out) refl
    | inr (c, found) ↦ rw (q, found) refl
  ]
  | inr q ↦ rw q refl
]

pub remove_state-keeps :
    (uri : Text) (s : Symbol) (self : WorkspaceIndex)
    → remove_state uri s self
      ≡ record self { states_by_owner = (remove_state uri s self).states_by_owner }
unfolding remove_state
remove_state-keeps uri s self = elim (Bool-cases (kind_eq s.kind state)) [
  | inl q ↦ elim (Option-cases s.owner_class) [
    | inl out ↦ rw (q, out) refl
    | inr (c, found) ↦ rw (q, found) refl
  ]
  | inr q ↦ rw q refl
]

pub remove_member-keeps :
    (uri : Text) (s : Symbol) (self : WorkspaceIndex)
    → remove_member uri s self ≡ record self {
      member_by_type = (remove_member uri s self).member_by_type;
      enum_member_by_name = (remove_member uri s self).enum_member_by_name;
    }
unfolding remove_member
remove_member-keeps uri s self = elim (Option-cases s.container_name) [
  | inl out ↦ rw out refl
  | inr (c, found) ↦ elim (Bool-cases (kind_eq s.kind enum_member)) [
    | inl q ↦ rw (found, q) refl
    | inr q ↦ rw (found, q) refl
  ]
]

pub remove_annotated-keeps :
    (uri : Text) (s : Symbol) (self : WorkspaceIndex)
    → remove_annotated uri s self ≡ record self {
      annotated_members_by_type = (remove_annotated uri s self).annotated_members_by_type;
    }
unfolding remove_annotated
remove_annotated-keeps uri s self = elim (Option-cases (annotation_target_class_safe s)) [
  | inl out ↦ rw out refl
  | inr (c, found) ↦ rw found refl
]

pub insert_native-keeps :
    (uri : Text) (s : Symbol) (self : WorkspaceIndex)
    → insert_native uri s self ≡ record self {
      native_functions_by_name = (insert_native uri s self).native_functions_by_name;
      native_member_by_type = (insert_native uri s self).native_member_by_type;
    }
unfolding insert_native
insert_native-keeps uri s self = elim (Option-cases s.container_name) [
  | inl out ↦ rw out refl
  | inr (c, found) ↦ rw found refl
]

pub insert_extension-keeps :
    (uri : Text) (s : Symbol) (self : WorkspaceIndex)
    → insert_extension uri s self ≡ record self {
      superclass_by_name = (insert_extension uri s self).superclass_by_name;
      subclasses_by_name = (insert_extension uri s self).subclasses_by_name;
    }
unfolding insert_extension
insert_extension-keeps uri s self = elim (Bool-cases (extends_by_type_name s.kind)) [
  | inl q ↦ elim (Option-cases s.base_class) [
    | inl out ↦ rw (q, out) refl
    | inr (c, found) ↦ rw (q, found) refl
  ]
  | inr q ↦ rw q refl
]

pub insert_state-keeps :
    (uri : Text) (s : Symbol) (self : WorkspaceIndex)
    → insert_state uri s self
      ≡ record self { states_by_owner = (insert_state uri s self).states_by_owner }
unfolding insert_state
insert_state-keeps uri s self = elim (Bool-cases (kind_eq s.kind state)) [
  | inl q ↦ elim (Option-cases s.owner_class) [
    | inl out ↦ rw (q, out) refl
    | inr (c, found) ↦ rw (q, found) refl
  ]
  | inr q ↦ rw q refl
]

pub insert_member-keeps :
    (uri : Text) (s : Symbol) (self : WorkspaceIndex)
    → insert_member uri s self ≡ record self {
      member_by_type = (insert_member uri s self).member_by_type;
      enum_member_by_name = (insert_member uri s self).enum_member_by_name;
    }
unfolding insert_member
insert_member-keeps uri s self = elim (Option-cases s.container_name) [
  | inl out ↦ rw out refl
  | inr (c, found) ↦ elim (Bool-cases (kind_eq s.kind enum_member)) [
    | inl q ↦ rw (found, q) refl
    | inr q ↦ rw (found, q) refl
  ]
]

-- the index without its maps
abbrev pub rest : WorkspaceIndex → WorkspaceIndex
rest self = record self {
  top_level_by_name = [];
  enum_member_by_name = [];
  superclass_by_name = [];
  subclasses_by_name = [];
  states_by_owner = [];
  member_by_type = [];
  annotated_members_by_type = [];
  native_functions_by_name = [];
  native_member_by_type = [];
}

pub rest-remove_symbol :
    (uri : Text) (s : Symbol) (self : WorkspaceIndex) → rest (remove_symbol uri s self) ≡ rest self
unfolding remove_symbol
rest-remove_symbol uri s self = elim (Bool-cases (requires_import s)) [
  | inl q ↦ rw q (ap rest (remove_native-keeps uri s self))
  | inr q ↦ elim (Bool-cases (is_some s.container)) [
    | inl r ↦ rw (q, r) (ap rest (remove_member-keeps uri s self))
    | inr r ↦ rw (q, r) (top_level uri s (unnamed uri s self))
  ]
]
  where
    unnamed : Text → Symbol → WorkspaceIndex → WorkspaceIndex
    unnamed uri s self = record self {
      top_level_by_name =
          retain_and_prune text_key (type_name s) (of_other uri) self.top_level_by_name;
    }

    top_level :
        (uri : Text) (s : Symbol) (m : WorkspaceIndex)
        → rest (remove_annotated uri s (remove_state uri s (remove_extension uri s m))) ≡ rest m
    top_level uri s m =
        ap rest (remove_annotated-keeps uri s (remove_state uri s (remove_extension uri s m)))
        ∙ ap rest (remove_state-keeps uri s (remove_extension uri s m))
        ∙ ap rest (remove_extension-keeps uri s m)

pub rest-insert_symbol :
    (uri : Text) (s : Symbol) (self : WorkspaceIndex) → rest (insert_symbol uri s self) ≡ rest self
unfolding insert_symbol
rest-insert_symbol uri s self = elim (Bool-cases (requires_import s)) [
  | inl q ↦ rw q (ap rest (insert_native-keeps uri s self))
  | inr q ↦ elim (Option-cases (annotation_target_class_safe s)) [
    | inr (c, found) ↦ rw (q, found) refl
    | inl out ↦ elim (Bool-cases (is_some s.container)) [
      | inl r ↦ rw (q, out, r) (ap rest (insert_member-keeps uri s self))
      | inr r ↦ rw (q, out, r) (top_level uri s (named uri s self))
    ]
  ]
]
  where
    named : Text → Symbol → WorkspaceIndex → WorkspaceIndex
    named uri s self = record self {
      top_level_by_name = push_value text_key (type_name s) (define uri s) self.top_level_by_name;
    }

    top_level :
        (uri : Text) (s : Symbol) (m : WorkspaceIndex)
        → rest (insert_state uri s (insert_extension uri s m)) ≡ rest m
    top_level uri s m =
        ap rest (insert_state-keeps uri s (insert_extension uri s m))
        ∙ ap rest (insert_extension-keeps uri s m)
