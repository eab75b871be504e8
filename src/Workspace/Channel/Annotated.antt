-- ===== src/Workspace/Channel/Annotated.antt =====
-- The map of the members that annotations add (src/resolve/workspace_index/indices.rs).
use witcherscript_language.Base.{
  ◌≡◌, refl, sym, ap, ◌∙◌, Bool, true, false, not, ◌&&◌, Option, [], ◌∷◌, ◌++◌, append-nil, Text,
  text_eq, text_key, is_some, map_or, filter, Option-cases, inl, inr, if◌then◌else◌, arith,
  nested_entry, nested_entry-push_nested, nested_entry-retain_and_prune_nested,
}
use witcherscript_language.Symbols.Symbol.{Symbol, requires_import, annotation_target_class_safe}
use witcherscript_language.Workspace.Defs.{Definition, WorkspaceIndex}
use witcherscript_language.Workspace.Index.{
  of_other, define, remove_symbol, insert_symbol, remove_extension, remove_state, remove_annotated,
  insert_extension,
}
use witcherscript_language.Workspace.Steps.{
  remove_native-keeps, remove_member-keeps, remove_extension-keeps, remove_state-keeps,
  insert_native-keeps, insert_member-keeps, insert_extension-keeps, insert_state-keeps,
}
use witcherscript_language.Workspace.Channel.{Channel, uri-define}
use witcherscript_language.Workspace.Cases.{
  unnamed, named, remove_symbol-cases, insert_symbol-cases,
}

-- members that annotations add, by class and name; an annotated symbol in a container is put in, and
-- not taken out
abbrev pub annotated_at : Symbol → Text × Text → Bool
annotated_at s j =
    not (requires_import s)
    && not (is_some s.container)
    && (map_or (annotation_target_class_safe s) false (λ c. text_eq c j.0) && text_eq s.name j.1)

abbrev pub annotated_new : Symbol → Text × Text → Bool
annotated_new s j =
    not (requires_import s)
    && (map_or (annotation_target_class_safe s) false (λ c. text_eq c j.0) && text_eq s.name j.1)

pub annotated_hits :
    (s : Symbol) (j : Text × Text)
    → not (is_some s.container && is_some (annotation_target_class_safe s)) ≡ true
    → annotated_at s j ≡ false
    → annotated_new s j ≡ false
annotated_hits s j r e =
    by_target (annotation_target_class_safe s) (not (requires_import s)) (is_some s.container)
      (text_eq s.name j.1) j.0 r e
  where
    by_target :
        (o : Option Text) (scripted held named : Bool) (c : Text)
        → not (held && is_some o) ≡ true
        → (scripted && not held && (map_or o false (λ t. text_eq t c) && named)) ≡ false
        → (scripted && (map_or o false (λ t. text_eq t c) && named)) ≡ false
    by_target o scripted held named c r e = ground arith

pub annotated-remove :
    (uri : Text) (s : Symbol) (self : WorkspaceIndex) (j : Text × Text)
    → nested_entry text_key text_key j.0 j.1 (remove_symbol uri s self).annotated_members_by_type
      ≡ (if annotated_at s j
          then filter
              (of_other uri)
              (nested_entry text_key text_key j.0 j.1 self.annotated_members_by_type)
          else nested_entry text_key text_key j.0 j.1 self.annotated_members_by_type)
unfolding remove_annotated
annotated-remove uri s self j =
    remove_symbol-cases
      (λ i. nested_entry text_key text_key j.0 j.1 i.annotated_members_by_type ≡ (
        if annotated_at s j
        then filter (of_other uri)
            (nested_entry text_key text_key j.0 j.1 self.annotated_members_by_type)
        else nested_entry text_key text_key j.0 j.1 self.annotated_members_by_type))
      uri s self
      (λ q. rw q (
        ap
          (λ (i : WorkspaceIndex).
            nested_entry text_key text_key j.0 j.1 i.annotated_members_by_type)
          (remove_native-keeps uri s self)))
      (λ q r.
        rw (q, r)
          (ap
            (λ (i : WorkspaceIndex).
              nested_entry text_key text_key j.0 j.1 i.annotated_members_by_type)
            (remove_member-keeps uri s self)))
      (λ q r. elim (Option-cases (annotation_target_class_safe s)) [
        | inl none_there ↦
            rw (q, r, none_there)
              (ap
                  (λ (i : WorkspaceIndex).
                    nested_entry text_key text_key j.0 j.1 i.annotated_members_by_type)
                  (remove_state-keeps uri s (remove_extension uri s (unnamed uri s self)))
                ∙ ap
                    (λ (i : WorkspaceIndex).
                      nested_entry text_key text_key j.0 j.1 i.annotated_members_by_type)
                    (remove_extension-keeps uri s (unnamed uri s self)))
        | inr (c, found) ↦
            rw (q, r, found)
              (nested_entry-retain_and_prune_nested text_key text_key c j.0 s.name j.1
                  (of_other uri)
                  (remove_state uri s
                    (remove_extension uri s (unnamed uri s self))).annotated_members_by_type
                ∙ ap
                    (λ (i : WorkspaceIndex).
                      if text_eq c j.0 && text_eq s.name j.1
                      then filter (of_other uri)
                          (nested_entry text_key text_key j.0 j.1 i.annotated_members_by_type)
                      else nested_entry text_key text_key j.0 j.1 i.annotated_members_by_type)
                    (remove_state-keeps uri s (remove_extension uri s (unnamed uri s self)))
                ∙ ap
                    (λ (i : WorkspaceIndex).
                      if text_eq c j.0 && text_eq s.name j.1
                      then filter (of_other uri)
                          (nested_entry text_key text_key j.0 j.1 i.annotated_members_by_type)
                      else nested_entry text_key text_key j.0 j.1 i.annotated_members_by_type)
                    (remove_extension-keeps uri s (unnamed uri s self)))
      ])

pub annotated-insert :
    (uri : Text) (s : Symbol) (self : WorkspaceIndex) (j : Text × Text)
    → nested_entry text_key text_key j.0 j.1 (insert_symbol uri s self).annotated_members_by_type
      ≡ nested_entry text_key text_key j.0 j.1 self.annotated_members_by_type
        ++ (if annotated_new s j then define uri s ∷ [] else [])
annotated-insert uri s self j =
    insert_symbol-cases
      (λ i.
        nested_entry text_key text_key j.0 j.1 i.annotated_members_by_type
        ≡ nested_entry text_key text_key j.0 j.1 self.annotated_members_by_type
          ++ (if annotated_new s j then define uri s ∷ [] else []))
      uri s self
      (λ q. rw q (
        ap
          (λ (i : WorkspaceIndex).
            nested_entry text_key text_key j.0 j.1 i.annotated_members_by_type)
          (insert_native-keeps uri s self)
        ∙ sym (append-nil (nested_entry text_key text_key j.0 j.1 self.annotated_members_by_type))))
      (λ q t found.
        rw (q, found)
          (nested_entry-push_nested text_key text_key t j.0 s.name j.1 (define uri s)
            self.annotated_members_by_type))
      (λ q out r.
        rw (q, out)
          (ap
              (λ (i : WorkspaceIndex).
                nested_entry text_key text_key j.0 j.1 i.annotated_members_by_type)
              (insert_member-keeps uri s self)
            ∙ sym (
                append-nil
                  (nested_entry text_key text_key j.0 j.1 self.annotated_members_by_type))))
      (λ q out r.
        rw (q, out)
          (ap
              (λ (i : WorkspaceIndex).
                nested_entry text_key text_key j.0 j.1 i.annotated_members_by_type)
              (insert_state-keeps uri s (insert_extension uri s (named uri s self)))
            ∙ ap
                (λ (i : WorkspaceIndex).
                  nested_entry text_key text_key j.0 j.1 i.annotated_members_by_type)
                (insert_extension-keeps uri s (named uri s self))
            ∙ sym (
                append-nil
                  (nested_entry text_key text_key j.0 j.1 self.annotated_members_by_type))))

abbrev pub annotated_channel : Channel (Text × Text) Definition
annotated_channel = record {
  values = λ self j. nested_entry text_key text_key j.0 j.1 self.annotated_members_by_type;
  owner = λ d. d.uri;
  value = define;
  holds = annotated_new;
  hits = annotated_at;
  removable = λ s. not (is_some s.container && is_some (annotation_target_class_safe s));
  owner-value = uri-define;
  holds-hits = λ s j r e. annotated_hits s j r e;
  values-maps_with = λ a b j. refl;
  values-remove_symbol = annotated-remove;
  values-insert_symbol = annotated-insert;
}
