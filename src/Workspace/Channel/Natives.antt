-- ===== src/Workspace/Channel/Natives.antt =====
-- The maps of native functions and members (src/resolve/workspace_index/indices.rs).
use witcherscript_language.Base.{
  ◌≡◌, refl, sym, ap, ◌∙◌, Bool, true, false, not, ◌&&◌, Option, none, some, [], ◌∷◌, ◌++◌,
  append-nil, Text, text_eq, text_key, is_some, map_or, filter, Option-cases, inl, inr,
  if◌then◌else◌, arith, entry, nested_entry, entry-push_value, entry-retain_and_prune,
  nested_entry-push_nested, nested_entry-retain_and_prune_nested,
}
use witcherscript_language.Symbols.Symbol.{Symbol, requires_import}
use witcherscript_language.Workspace.Defs.{Definition, WorkspaceIndex}
use witcherscript_language.Workspace.Index.{
  of_other, define, remove_symbol, insert_symbol, remove_native, remove_extension, remove_state,
  insert_native, insert_extension, insert_native_in,
}
use witcherscript_language.Workspace.Steps.{
  remove_member-keeps, remove_extension-keeps, remove_state-keeps, remove_annotated-keeps,
  insert_member-keeps, insert_extension-keeps, insert_state-keeps,
}
use witcherscript_language.Workspace.Channel.{Channel, uri-define}
use witcherscript_language.Workspace.Cases.{
  unnamed, named, remove_symbol-cases, insert_symbol-cases,
}

-- native functions, by name
abbrev pub native_functions_at : Symbol → Text → Bool
native_functions_at s n = requires_import s && not (is_some s.container_name) && text_eq s.name n

abbrev pub native_functions_new : Symbol → Text → Bool
native_functions_new s n = native_functions_at s n

native_functions_in :
    (o : Option Text) (uri : Text) (s : Symbol) (self : WorkspaceIndex) (n : Text)
    → entry text_key n (insert_native_in o uri s self).native_functions_by_name
      ≡ entry text_key n self.native_functions_by_name
        ++ (if not (is_some o) && text_eq s.name n then define uri s ∷ [] else [])
unfolding insert_native_in
native_functions_in none uri s self n =
    entry-push_value text_key s.name n (define uri s) self.native_functions_by_name
native_functions_in (some c) uri s self n =
    sym (append-nil (entry text_key n self.native_functions_by_name))

pub native_functions_hits :
    (s : Symbol) (n : Text) → native_functions_at s n ≡ false → native_functions_new s n ≡ false
native_functions_hits s n e = ground arith

pub native_functions-remove :
    (uri : Text) (s : Symbol) (self : WorkspaceIndex) (n : Text)
    → entry text_key n (remove_symbol uri s self).native_functions_by_name ≡ (
        if native_functions_at s n
        then filter (of_other uri) (entry text_key n self.native_functions_by_name)
        else entry text_key n self.native_functions_by_name)
unfolding remove_native
native_functions-remove uri s self n =
    remove_symbol-cases
      (λ i. entry text_key n i.native_functions_by_name ≡ (
        if native_functions_at s n
        then filter (of_other uri) (entry text_key n self.native_functions_by_name)
        else entry text_key n self.native_functions_by_name))
      uri s self
      (λ q. elim (Option-cases s.container_name) [
        | inl out ↦
            rw (q, out)
              (entry-retain_and_prune text_key s.name n (of_other uri)
                self.native_functions_by_name)
        | inr (c, found) ↦ rw (q, found) refl
      ])
      (λ q r. rw q (
        ap (λ (i : WorkspaceIndex). entry text_key n i.native_functions_by_name)
          (remove_member-keeps uri s self)))
      (λ q r. rw q (
        ap (λ (i : WorkspaceIndex). entry text_key n i.native_functions_by_name)
          (remove_annotated-keeps uri s
            (remove_state uri s (remove_extension uri s (unnamed uri s self))))
        ∙ ap (λ (i : WorkspaceIndex). entry text_key n i.native_functions_by_name)
            (remove_state-keeps uri s (remove_extension uri s (unnamed uri s self)))
        ∙ ap (λ (i : WorkspaceIndex). entry text_key n i.native_functions_by_name)
            (remove_extension-keeps uri s (unnamed uri s self))))

pub native_functions-insert :
    (uri : Text) (s : Symbol) (self : WorkspaceIndex) (n : Text)
    → entry text_key n (insert_symbol uri s self).native_functions_by_name
      ≡ entry text_key n self.native_functions_by_name
        ++ (if native_functions_new s n then define uri s ∷ [] else [])
unfolding insert_native
native_functions-insert uri s self n =
    insert_symbol-cases
      (λ i.
        entry text_key n i.native_functions_by_name
        ≡ entry text_key n self.native_functions_by_name
          ++ (if native_functions_new s n then define uri s ∷ [] else []))
      uri s self (λ q. rw q (native_functions_in s.container_name uri s self n))
      (λ q t found. rw q (sym (append-nil (entry text_key n self.native_functions_by_name))))
      (λ q out r. rw q (
        ap (λ (i : WorkspaceIndex). entry text_key n i.native_functions_by_name)
          (insert_member-keeps uri s self)
        ∙ sym (append-nil (entry text_key n self.native_functions_by_name))))
      (λ q out r. rw q (
        ap (λ (i : WorkspaceIndex). entry text_key n i.native_functions_by_name)
          (insert_state-keeps uri s (insert_extension uri s (named uri s self)))
        ∙ ap (λ (i : WorkspaceIndex). entry text_key n i.native_functions_by_name)
            (insert_extension-keeps uri s (named uri s self))
        ∙ sym (append-nil (entry text_key n self.native_functions_by_name))))

abbrev pub native_functions_channel : Channel Text Definition
native_functions_channel = record {
  values = λ self n. entry text_key n self.native_functions_by_name;
  owner = λ d. d.uri;
  value = define;
  holds = native_functions_new;
  hits = native_functions_at;
  removable = λ s. true;
  owner-value = uri-define;
  holds-hits = λ s n r e. native_functions_hits s n e;
  values-maps_with = λ a b n. refl;
  values-remove_symbol = native_functions-remove;
  values-insert_symbol = native_functions-insert;
}

-- native members, by container and name
abbrev pub native_members_at : Symbol → Text × Text → Bool
native_members_at s j =
    requires_import s && (map_or s.container_name false (λ c. text_eq c j.0) && text_eq s.name j.1)

abbrev pub native_members_new : Symbol → Text × Text → Bool
native_members_new s j = native_members_at s j

native_members_in :
    (o : Option Text) (uri : Text) (s : Symbol) (self : WorkspaceIndex) (j : Text × Text)
    → nested_entry text_key text_key j.0 j.1 (insert_native_in o uri s self).native_member_by_type
      ≡ nested_entry text_key text_key j.0 j.1 self.native_member_by_type
        ++ (if map_or o false (λ c. text_eq c j.0) && text_eq s.name j.1
            then define uri s ∷ []
            else [])
unfolding insert_native_in
native_members_in none uri s self j =
    sym (append-nil (nested_entry text_key text_key j.0 j.1 self.native_member_by_type))
native_members_in (some c) uri s self j =
    nested_entry-push_nested text_key text_key c j.0 s.name j.1 (define uri s)
      self.native_member_by_type

pub native_members_hits :
    (s : Symbol) (j : Text × Text) → native_members_at s j ≡ false → native_members_new s j ≡ false
native_members_hits s j e = ground arith

pub native_members-remove :
    (uri : Text) (s : Symbol) (self : WorkspaceIndex) (j : Text × Text)
    → nested_entry text_key text_key j.0 j.1 (remove_symbol uri s self).native_member_by_type ≡ (
        if native_members_at s j
        then filter
            (of_other uri)
            (nested_entry text_key text_key j.0 j.1 self.native_member_by_type)
        else nested_entry text_key text_key j.0 j.1 self.native_member_by_type)
unfolding remove_native
native_members-remove uri s self j =
    remove_symbol-cases
      (λ i. nested_entry text_key text_key j.0 j.1 i.native_member_by_type ≡ (
        if native_members_at s j
        then filter (of_other uri)
            (nested_entry text_key text_key j.0 j.1 self.native_member_by_type)
        else nested_entry text_key text_key j.0 j.1 self.native_member_by_type))
      uri s self
      (λ q. elim (Option-cases s.container_name) [
        | inl out ↦ rw (q, out) refl
        | inr (c, found) ↦
            rw (q, found)
              (nested_entry-retain_and_prune_nested text_key text_key c j.0 s.name j.1
                (of_other uri) self.native_member_by_type)
      ])
      (λ q r. rw q (
        ap (λ (i : WorkspaceIndex). nested_entry text_key text_key j.0 j.1 i.native_member_by_type)
          (remove_member-keeps uri s self)))
      (λ q r. rw q (
        ap (λ (i : WorkspaceIndex). nested_entry text_key text_key j.0 j.1 i.native_member_by_type)
          (remove_annotated-keeps uri s
            (remove_state uri s (remove_extension uri s (unnamed uri s self))))
        ∙ ap
            (λ (i : WorkspaceIndex). nested_entry text_key text_key j.0 j.1 i.native_member_by_type)
            (remove_state-keeps uri s (remove_extension uri s (unnamed uri s self)))
        ∙ ap
            (λ (i : WorkspaceIndex). nested_entry text_key text_key j.0 j.1 i.native_member_by_type)
            (remove_extension-keeps uri s (unnamed uri s self))))

pub native_members-insert :
    (uri : Text) (s : Symbol) (self : WorkspaceIndex) (j : Text × Text)
    → nested_entry text_key text_key j.0 j.1 (insert_symbol uri s self).native_member_by_type
      ≡ nested_entry text_key text_key j.0 j.1 self.native_member_by_type
        ++ (if native_members_new s j then define uri s ∷ [] else [])
unfolding insert_native
native_members-insert uri s self j =
    insert_symbol-cases
      (λ i.
        nested_entry text_key text_key j.0 j.1 i.native_member_by_type
        ≡ nested_entry text_key text_key j.0 j.1 self.native_member_by_type
          ++ (if native_members_new s j then define uri s ∷ [] else []))
      uri s self (λ q. rw q (native_members_in s.container_name uri s self j))
      (λ q t found.
        rw q (sym (append-nil (nested_entry text_key text_key j.0 j.1 self.native_member_by_type))))
      (λ q out r. rw q (
        ap (λ (i : WorkspaceIndex). nested_entry text_key text_key j.0 j.1 i.native_member_by_type)
          (insert_member-keeps uri s self)
        ∙ sym (append-nil (nested_entry text_key text_key j.0 j.1 self.native_member_by_type))))
      (λ q out r. rw q (
        ap (λ (i : WorkspaceIndex). nested_entry text_key text_key j.0 j.1 i.native_member_by_type)
          (insert_state-keeps uri s (insert_extension uri s (named uri s self)))
        ∙ ap
            (λ (i : WorkspaceIndex). nested_entry text_key text_key j.0 j.1 i.native_member_by_type)
            (insert_extension-keeps uri s (named uri s self))
        ∙ sym (append-nil (nested_entry text_key text_key j.0 j.1 self.native_member_by_type))))

abbrev pub native_members_channel : Channel (Text × Text) Definition
native_members_channel = record {
  values = λ self j. nested_entry text_key text_key j.0 j.1 self.native_member_by_type;
  owner = λ d. d.uri;
  value = define;
  holds = native_members_new;
  hits = native_members_at;
  removable = λ s. true;
  owner-value = uri-define;
  holds-hits = λ s j r e. native_members_hits s j e;
  values-maps_with = λ a b j. refl;
  values-remove_symbol = native_members-remove;
  values-insert_symbol = native_members-insert;
}
