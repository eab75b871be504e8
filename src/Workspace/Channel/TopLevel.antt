-- ===== src/Workspace/Channel/TopLevel.antt =====
-- The maps of top-level symbols and base classes (src/resolve/workspace_index/indices.rs).
use witcherscript_language.Base.{
  ◌≡◌, refl, sym, ap, ◌∙◌, Bool, true, false, not, ◌&&◌, [], ◌∷◌, ◌++◌, append-nil, Text, text_eq,
  text_key, is_some, unwrap_or, filter, Bool-cases, Option-cases, inl, inr, if◌then◌else◌, arith,
  entry, entry-push_value, entry-retain_and_prune,
}
use witcherscript_language.Symbols.Kinds.{extends_by_type_name}
use witcherscript_language.Symbols.Symbol.{
  Symbol, type_name, requires_import, annotation_target_class_safe,
}
use witcherscript_language.Workspace.Defs.{Definition, WorkspaceIndex}
use witcherscript_language.Workspace.Index.{
  of_other, pair_of_other, define, remove_symbol, insert_symbol, remove_extension, remove_state,
  insert_extension,
}
use witcherscript_language.Workspace.Steps.{
  remove_native-keeps, remove_member-keeps, remove_extension-keeps, remove_state-keeps,
  remove_annotated-keeps, insert_native-keeps, insert_member-keeps, insert_extension-keeps,
  insert_state-keeps,
}
use witcherscript_language.Workspace.Channel.{Channel, uri-define}
use witcherscript_language.Workspace.Cases.{
  unnamed, named, remove_symbol-cases, insert_symbol-cases,
}

-- top-level symbols, by the names of their types
abbrev pub top_level_at : Symbol → Text → Bool
top_level_at s n = not (requires_import s) && not (is_some s.container) && text_eq (type_name s) n

abbrev pub top_level_new : Symbol → Text → Bool
top_level_new s n =
    not (requires_import s)
    && not (is_some (annotation_target_class_safe s))
    && not (is_some s.container)
    && text_eq (type_name s) n

pub top_level_hits : (s : Symbol) (n : Text) → top_level_at s n ≡ false → top_level_new s n ≡ false
top_level_hits s n e = ground arith

pub top_level-remove :
    (uri : Text) (s : Symbol) (self : WorkspaceIndex) (n : Text)
    → entry text_key n (remove_symbol uri s self).top_level_by_name ≡ (
        if top_level_at s n
        then filter (of_other uri) (entry text_key n self.top_level_by_name)
        else entry text_key n self.top_level_by_name)
top_level-remove uri s self n =
    remove_symbol-cases
      (λ i. entry text_key n i.top_level_by_name ≡ (
        if top_level_at s n
        then filter (of_other uri) (entry text_key n self.top_level_by_name)
        else entry text_key n self.top_level_by_name))
      uri s self
      (λ q. rw q (
        ap (λ (i : WorkspaceIndex). entry text_key n i.top_level_by_name)
          (remove_native-keeps uri s self)))
      (λ q r.
        rw (q, r)
          (ap (λ (i : WorkspaceIndex). entry text_key n i.top_level_by_name)
            (remove_member-keeps uri s self)))
      (λ q r.
        rw (q, r)
          (ap (λ (i : WorkspaceIndex). entry text_key n i.top_level_by_name)
              (remove_annotated-keeps uri s
                (remove_state uri s (remove_extension uri s (unnamed uri s self))))
            ∙ ap (λ (i : WorkspaceIndex). entry text_key n i.top_level_by_name)
                (remove_state-keeps uri s (remove_extension uri s (unnamed uri s self)))
            ∙ ap (λ (i : WorkspaceIndex). entry text_key n i.top_level_by_name)
                (remove_extension-keeps uri s (unnamed uri s self))
            ∙ entry-retain_and_prune text_key (type_name s) n (of_other uri)
                self.top_level_by_name))

pub top_level-insert :
    (uri : Text) (s : Symbol) (self : WorkspaceIndex) (n : Text)
    → entry text_key n (insert_symbol uri s self).top_level_by_name
      ≡ entry text_key n self.top_level_by_name
        ++ (if top_level_new s n then define uri s ∷ [] else [])
top_level-insert uri s self n =
    insert_symbol-cases
      (λ i.
        entry text_key n i.top_level_by_name
        ≡ entry text_key n self.top_level_by_name
          ++ (if top_level_new s n then define uri s ∷ [] else []))
      uri s self
      (λ q. rw q (
        ap (λ (i : WorkspaceIndex). entry text_key n i.top_level_by_name)
          (insert_native-keeps uri s self)
        ∙ sym (append-nil (entry text_key n self.top_level_by_name))))
      (λ q t found. rw (q, found) (sym (append-nil (entry text_key n self.top_level_by_name))))
      (λ q out r.
        rw (q, out, r)
          (ap (λ (i : WorkspaceIndex). entry text_key n i.top_level_by_name)
              (insert_member-keeps uri s self)
            ∙ sym (append-nil (entry text_key n self.top_level_by_name))))
      (λ q out r.
        rw (q, out, r)
          (ap (λ (i : WorkspaceIndex). entry text_key n i.top_level_by_name)
              (insert_state-keeps uri s (insert_extension uri s (named uri s self)))
            ∙ ap (λ (i : WorkspaceIndex). entry text_key n i.top_level_by_name)
                (insert_extension-keeps uri s (named uri s self))
            ∙ entry-push_value text_key (type_name s) n (define uri s) self.top_level_by_name))

abbrev pub top_level_channel : Channel Text Definition
top_level_channel = record {
  values = λ self n. entry text_key n self.top_level_by_name;
  owner = λ d. d.uri;
  value = define;
  holds = top_level_new;
  hits = top_level_at;
  removable = λ s. true;
  owner-value = uri-define;
  holds-hits = λ s n r e. top_level_hits s n e;
  values-maps_with = λ a b n. refl;
  values-remove_symbol = top_level-remove;
  values-insert_symbol = top_level-insert;
}

-- base classes, by the names of their classes
abbrev pub superclasses_at : Symbol → Text → Bool
superclasses_at s n =
    not (requires_import s)
    && not (is_some s.container)
    && extends_by_type_name s.kind
    && text_eq s.name n

abbrev pub superclasses_new : Symbol → Text → Bool
superclasses_new s n =
    not (requires_import s)
    && not (is_some (annotation_target_class_safe s))
    && not (is_some s.container)
    && extends_by_type_name s.kind
    && is_some s.base_class
    && text_eq s.name n

abbrev pub extension : Text → Symbol → Text × Text
extension uri s = (uri, unwrap_or s.base_class [])

pub superclasses_hits :
    (s : Symbol) (n : Text) → superclasses_at s n ≡ false → superclasses_new s n ≡ false
superclasses_hits s n e = ground arith

pub superclasses-remove :
    (uri : Text) (s : Symbol) (self : WorkspaceIndex) (n : Text)
    → entry text_key n (remove_symbol uri s self).superclass_by_name ≡ (
        if superclasses_at s n
        then filter (pair_of_other uri) (entry text_key n self.superclass_by_name)
        else entry text_key n self.superclass_by_name)
unfolding remove_extension
superclasses-remove uri s self n =
    remove_symbol-cases
      (λ i. entry text_key n i.superclass_by_name ≡ (
        if superclasses_at s n
        then filter (pair_of_other uri) (entry text_key n self.superclass_by_name)
        else entry text_key n self.superclass_by_name))
      uri s self
      (λ q. rw q (
        ap (λ (i : WorkspaceIndex). entry text_key n i.superclass_by_name)
          (remove_native-keeps uri s self)))
      (λ q r.
        rw (q, r)
          (ap (λ (i : WorkspaceIndex). entry text_key n i.superclass_by_name)
            (remove_member-keeps uri s self)))
      (λ q r.
        ap (λ (i : WorkspaceIndex). entry text_key n i.superclass_by_name)
          (remove_annotated-keeps uri s
            (remove_state uri s (remove_extension uri s (unnamed uri s self))))
        ∙ ap (λ (i : WorkspaceIndex). entry text_key n i.superclass_by_name)
            (remove_state-keeps uri s (remove_extension uri s (unnamed uri s self)))
        ∙ elim (Bool-cases (extends_by_type_name s.kind)) [
          | inl k ↦ elim (Option-cases s.base_class) [
            | inl none_there ↦
                rw (q, r, k, none_there)
                  (entry-retain_and_prune text_key s.name n (pair_of_other uri)
                    self.superclass_by_name)
            | inr (c, found) ↦
                rw (q, r, k, found)
                  (entry-retain_and_prune text_key s.name n (pair_of_other uri)
                    self.superclass_by_name)
          ]
          | inr k ↦ rw (q, r, k) refl
        ])

pub superclasses-insert :
    (uri : Text) (s : Symbol) (self : WorkspaceIndex) (n : Text)
    → entry text_key n (insert_symbol uri s self).superclass_by_name
      ≡ entry text_key n self.superclass_by_name
        ++ (if superclasses_new s n then extension uri s ∷ [] else [])
unfolding insert_extension
superclasses-insert uri s self n =
    insert_symbol-cases
      (λ i.
        entry text_key n i.superclass_by_name
        ≡ entry text_key n self.superclass_by_name
          ++ (if superclasses_new s n then extension uri s ∷ [] else []))
      uri s self
      (λ q. rw q (
        ap (λ (i : WorkspaceIndex). entry text_key n i.superclass_by_name)
          (insert_native-keeps uri s self)
        ∙ sym (append-nil (entry text_key n self.superclass_by_name))))
      (λ q t found. rw (q, found) (sym (append-nil (entry text_key n self.superclass_by_name))))
      (λ q out r.
        rw (q, out, r)
          (ap (λ (i : WorkspaceIndex). entry text_key n i.superclass_by_name)
              (insert_member-keeps uri s self)
            ∙ sym (append-nil (entry text_key n self.superclass_by_name))))
      (λ q out r.
        ap (λ (i : WorkspaceIndex). entry text_key n i.superclass_by_name)
          (insert_state-keeps uri s (insert_extension uri s (named uri s self)))
        ∙ elim (Bool-cases (extends_by_type_name s.kind)) [
          | inl k ↦ elim (Option-cases s.base_class) [
            | inl none_there ↦
                rw (q, out, r, k, none_there)
                  (sym (append-nil (entry text_key n self.superclass_by_name)))
            | inr (c, found) ↦
                rw (q, out, r, k, found)
                  (entry-push_value text_key s.name n (uri, c) self.superclass_by_name)
          ]
          | inr k ↦ rw (q, out, r, k) (sym (append-nil (entry text_key n self.superclass_by_name)))
        ])

abbrev pub superclasses_channel : Channel Text (Text × Text)
superclasses_channel = record {
  values = λ self n. entry text_key n self.superclass_by_name;
  owner = λ d. d.0;
  value = extension;
  holds = superclasses_new;
  hits = superclasses_at;
  removable = λ s. true;
  owner-value = λ uri s. refl;
  holds-hits = λ s n r e. superclasses_hits s n e;
  values-maps_with = λ a b n. refl;
  values-remove_symbol = superclasses-remove;
  values-insert_symbol = superclasses-insert;
}
