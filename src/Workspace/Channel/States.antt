-- ===== src/Workspace/Channel/States.antt =====
-- The map of states (src/resolve/workspace_index/indices.rs).
use witcherscript_language.Base.{
  ◌≡◌, refl, sym, ap, ◌∙◌, Bool, true, false, not, ◌&&◌, Option, none, some, [], ◌∷◌, ◌++◌,
  append-nil, Text, text_eq, text_key, is_some, map_or, filter, Bool-cases, inl, inr, if◌then◌else◌,
  arith, nested_entry, nested_entry-push_nested, nested_entry-retain_and_prune_nested,
}
use witcherscript_language.Symbols.Kinds.{state, kind_eq}
use witcherscript_language.Symbols.Symbol.{Symbol, requires_import, annotation_target_class_safe}
use witcherscript_language.Workspace.Defs.{Definition, WorkspaceIndex}
use witcherscript_language.Workspace.Index.{
  of_other, define, remove_symbol, insert_symbol, remove_extension, remove_state, insert_extension,
  insert_state, insert_state_of, remove_state_of,
}
use witcherscript_language.Workspace.Steps.{
  remove_native-keeps, remove_member-keeps, remove_extension-keeps, remove_annotated-keeps,
  insert_native-keeps, insert_member-keeps, insert_extension-keeps,
}
use witcherscript_language.Workspace.Channel.{Channel, uri-define}
use witcherscript_language.Workspace.Cases.{
  unnamed, named, remove_symbol-cases, insert_symbol-cases,
}

-- states, by owner and name
abbrev pub states_at : Symbol → Text × Text → Bool
states_at s j =
    not (requires_import s)
    && not (is_some s.container)
    && kind_eq s.kind state
    && (map_or s.owner_class false (λ c. text_eq c j.0) && text_eq s.name j.1)

abbrev pub states_new : Symbol → Text × Text → Bool
states_new s j =
    not (requires_import s)
    && not (is_some (annotation_target_class_safe s))
    && not (is_some s.container)
    && kind_eq s.kind state
    && (map_or s.owner_class false (λ c. text_eq c j.0) && text_eq s.name j.1)

states_out :
    (o : Option Text) (uri : Text) (s : Symbol) (self : WorkspaceIndex) (j : Text × Text)
    → nested_entry text_key text_key j.0 j.1 (remove_state_of o uri s self).states_by_owner ≡ (
        if map_or o false (λ c. text_eq c j.0) && text_eq s.name j.1
        then filter (of_other uri) (nested_entry text_key text_key j.0 j.1 self.states_by_owner)
        else nested_entry text_key text_key j.0 j.1 self.states_by_owner)
unfolding remove_state_of
states_out none uri s self j = refl
states_out (some c) uri s self j =
    nested_entry-retain_and_prune_nested text_key text_key c j.0 s.name j.1 (of_other uri)
      self.states_by_owner

states_in :
    (o : Option Text) (uri : Text) (s : Symbol) (self : WorkspaceIndex) (j : Text × Text)
    → nested_entry text_key text_key j.0 j.1 (insert_state_of o uri s self).states_by_owner
      ≡ nested_entry text_key text_key j.0 j.1 self.states_by_owner
        ++ (if map_or o false (λ c. text_eq c j.0) && text_eq s.name j.1
            then define uri s ∷ []
            else [])
unfolding insert_state_of
states_in none uri s self j =
    sym (append-nil (nested_entry text_key text_key j.0 j.1 self.states_by_owner))
states_in (some c) uri s self j =
    nested_entry-push_nested text_key text_key c j.0 s.name j.1 (define uri s) self.states_by_owner

pub states_hits : (s : Symbol) (j : Text × Text) → states_at s j ≡ false → states_new s j ≡ false
states_hits s j e = ground arith

pub states-remove :
    (uri : Text) (s : Symbol) (self : WorkspaceIndex) (j : Text × Text)
    → nested_entry text_key text_key j.0 j.1 (remove_symbol uri s self).states_by_owner ≡ (
        if states_at s j
        then filter (of_other uri) (nested_entry text_key text_key j.0 j.1 self.states_by_owner)
        else nested_entry text_key text_key j.0 j.1 self.states_by_owner)
unfolding remove_state
states-remove uri s self j =
    remove_symbol-cases
      (λ i. nested_entry text_key text_key j.0 j.1 i.states_by_owner ≡ (
        if states_at s j
        then filter (of_other uri) (nested_entry text_key text_key j.0 j.1 self.states_by_owner)
        else nested_entry text_key text_key j.0 j.1 self.states_by_owner))
      uri s self
      (λ q. rw q (
        ap (λ (i : WorkspaceIndex). nested_entry text_key text_key j.0 j.1 i.states_by_owner)
          (remove_native-keeps uri s self)))
      (λ q r.
        rw (q, r)
          (ap (λ (i : WorkspaceIndex). nested_entry text_key text_key j.0 j.1 i.states_by_owner)
            (remove_member-keeps uri s self)))
      (λ q r.
        ap (λ (i : WorkspaceIndex). nested_entry text_key text_key j.0 j.1 i.states_by_owner)
          (remove_annotated-keeps uri s
            (remove_state uri s (remove_extension uri s (unnamed uri s self))))
        ∙ elim (Bool-cases (kind_eq s.kind state)) [
          | inl k ↦
              rw (q, r, k)
                (states_out s.owner_class uri s (remove_extension uri s (unnamed uri s self)) j
                  ∙ ap
                      (λ (i : WorkspaceIndex).
                        if map_or s.owner_class false (λ c. text_eq c j.0) && text_eq s.name j.1
                        then filter (of_other uri)
                            (nested_entry text_key text_key j.0 j.1 i.states_by_owner)
                        else nested_entry text_key text_key j.0 j.1 i.states_by_owner)
                      (remove_extension-keeps uri s (unnamed uri s self)))
          | inr k ↦
              rw (q, r, k)
                (ap
                  (λ (i : WorkspaceIndex). nested_entry text_key text_key j.0 j.1 i.states_by_owner)
                  (remove_extension-keeps uri s (unnamed uri s self)))
        ])

pub states-insert :
    (uri : Text) (s : Symbol) (self : WorkspaceIndex) (j : Text × Text)
    → nested_entry text_key text_key j.0 j.1 (insert_symbol uri s self).states_by_owner
      ≡ nested_entry text_key text_key j.0 j.1 self.states_by_owner
        ++ (if states_new s j then define uri s ∷ [] else [])
unfolding insert_state
states-insert uri s self j =
    insert_symbol-cases
      (λ i.
        nested_entry text_key text_key j.0 j.1 i.states_by_owner
        ≡ nested_entry text_key text_key j.0 j.1 self.states_by_owner
          ++ (if states_new s j then define uri s ∷ [] else []))
      uri s self
      (λ q. rw q (
        ap (λ (i : WorkspaceIndex). nested_entry text_key text_key j.0 j.1 i.states_by_owner)
          (insert_native-keeps uri s self)
        ∙ sym (append-nil (nested_entry text_key text_key j.0 j.1 self.states_by_owner))))
      (λ q t found.
        rw (q, found)
          (sym (append-nil (nested_entry text_key text_key j.0 j.1 self.states_by_owner))))
      (λ q out r.
        rw (q, out, r)
          (ap (λ (i : WorkspaceIndex). nested_entry text_key text_key j.0 j.1 i.states_by_owner)
              (insert_member-keeps uri s self)
            ∙ sym (append-nil (nested_entry text_key text_key j.0 j.1 self.states_by_owner))))
      (λ q out r. elim (Bool-cases (kind_eq s.kind state)) [
        | inl k ↦
            rw (q, out, r, k)
              (states_in s.owner_class uri s (insert_extension uri s (named uri s self)) j
                ∙ ap
                    (λ (i : WorkspaceIndex).
                      nested_entry text_key text_key j.0 j.1 i.states_by_owner
                      ++ (if map_or s.owner_class false (λ c. text_eq c j.0) && text_eq s.name j.1
                          then define uri s ∷ []
                          else []))
                    (insert_extension-keeps uri s (named uri s self)))
        | inr k ↦
            rw (q, out, r, k)
              (ap (λ (i : WorkspaceIndex). nested_entry text_key text_key j.0 j.1 i.states_by_owner)
                  (insert_extension-keeps uri s (named uri s self))
                ∙ sym (append-nil (nested_entry text_key text_key j.0 j.1 self.states_by_owner)))
      ])

abbrev pub states_channel : Channel (Text × Text) Definition
states_channel = record {
  values = λ self j. nested_entry text_key text_key j.0 j.1 self.states_by_owner;
  owner = λ d. d.uri;
  value = define;
  holds = states_new;
  hits = states_at;
  removable = λ s. true;
  owner-value = uri-define;
  holds-hits = λ s j r e. states_hits s j e;
  values-maps_with = λ a b j. refl;
  values-remove_symbol = states-remove;
  values-insert_symbol = states-insert;
}
