-- ===== src/Workspace/Channel/Members.antt =====
-- The maps of members and enumerations (src/resolve/workspace_index/indices.rs).
use witcherscript_language.Base.{
  ◌≡◌, refl, sym, ap, ◌∙◌, Bool, true, false, not, ◌&&◌, Option, none, some, [], ◌∷◌, ◌++◌,
  append-nil, Text, text_eq, text_key, is_some, map_or, filter, Bool-cases, Option-cases, inl, inr,
  if◌then◌else◌, arith, entry, nested_entry, entry-push_value, entry-retain_and_prune,
  nested_entry-push_nested, nested_entry-retain_and_prune_nested,
}
use witcherscript_language.Symbols.Kinds.{enum_member, kind_eq}
use witcherscript_language.Symbols.Symbol.{Symbol, requires_import, annotation_target_class_safe}
use witcherscript_language.Workspace.Defs.{Definition, WorkspaceIndex}
use witcherscript_language.Workspace.Index.{
  of_other, define, remove_symbol, insert_symbol, remove_member, remove_extension, remove_state,
  insert_member, insert_extension, insert_member_in,
}
use witcherscript_language.Workspace.Steps.{
  remove_native-keeps, remove_extension-keeps, remove_state-keeps, remove_annotated-keeps,
  insert_native-keeps, insert_extension-keeps, insert_state-keeps,
}
use witcherscript_language.Workspace.Channel.{Channel, uri-define}
use witcherscript_language.Workspace.Cases.{
  unnamed, named, remove_symbol-cases, insert_symbol-cases,
}

-- members of type bodies, by container and name
abbrev pub members_at : Symbol → Text × Text → Bool
members_at s j =
    not (requires_import s)
    && is_some s.container
    && (map_or s.container_name false (λ c. text_eq c j.0) && text_eq s.name j.1)

abbrev pub members_new : Symbol → Text × Text → Bool
members_new s j =
    not (requires_import s)
    && not (is_some (annotation_target_class_safe s))
    && is_some s.container
    && (map_or s.container_name false (λ c. text_eq c j.0) && text_eq s.name j.1)

members_in :
    (o : Option Text) (uri : Text) (s : Symbol) (self : WorkspaceIndex) (j : Text × Text)
    → nested_entry text_key text_key j.0 j.1 (insert_member_in o uri s self).member_by_type
      ≡ nested_entry text_key text_key j.0 j.1 self.member_by_type
        ++ (if map_or o false (λ c. text_eq c j.0) && text_eq s.name j.1
            then define uri s ∷ []
            else [])
unfolding insert_member_in
members_in none uri s self j =
    sym (append-nil (nested_entry text_key text_key j.0 j.1 self.member_by_type))
members_in (some c) uri s self j = elim (Bool-cases (kind_eq s.kind enum_member)) [
  | inl k ↦ rw k (
      nested_entry-push_nested text_key text_key c j.0 s.name j.1 (define uri s)
        self.member_by_type)
  | inr k ↦ rw k (
      nested_entry-push_nested text_key text_key c j.0 s.name j.1 (define uri s)
        self.member_by_type)
]

pub members_hits : (s : Symbol) (j : Text × Text) → members_at s j ≡ false → members_new s j ≡ false
members_hits s j e = ground arith

pub members-remove :
    (uri : Text) (s : Symbol) (self : WorkspaceIndex) (j : Text × Text)
    → nested_entry text_key text_key j.0 j.1 (remove_symbol uri s self).member_by_type ≡ (
        if members_at s j
        then filter (of_other uri) (nested_entry text_key text_key j.0 j.1 self.member_by_type)
        else nested_entry text_key text_key j.0 j.1 self.member_by_type)
unfolding remove_member
members-remove uri s self j =
    remove_symbol-cases
      (λ i. nested_entry text_key text_key j.0 j.1 i.member_by_type ≡ (
        if members_at s j
        then filter (of_other uri) (nested_entry text_key text_key j.0 j.1 self.member_by_type)
        else nested_entry text_key text_key j.0 j.1 self.member_by_type))
      uri s self
      (λ q. rw q (
        ap (λ (i : WorkspaceIndex). nested_entry text_key text_key j.0 j.1 i.member_by_type)
          (remove_native-keeps uri s self)))
      (λ q r. elim (Option-cases s.container_name) [
        | inl out ↦ rw (q, r, out) refl
        | inr (c, found) ↦ elim (Bool-cases (kind_eq s.kind enum_member)) [
          | inl k ↦
              rw (q, r, found, k)
                (nested_entry-retain_and_prune_nested text_key text_key c j.0 s.name j.1
                  (of_other uri) self.member_by_type)
          | inr k ↦
              rw (q, r, found, k)
                (nested_entry-retain_and_prune_nested text_key text_key c j.0 s.name j.1
                  (of_other uri) self.member_by_type)
        ]
      ])
      (λ q r.
        rw (q, r)
          (ap (λ (i : WorkspaceIndex). nested_entry text_key text_key j.0 j.1 i.member_by_type)
              (remove_annotated-keeps uri s
                (remove_state uri s (remove_extension uri s (unnamed uri s self))))
            ∙ ap (λ (i : WorkspaceIndex). nested_entry text_key text_key j.0 j.1 i.member_by_type)
                (remove_state-keeps uri s (remove_extension uri s (unnamed uri s self)))
            ∙ ap (λ (i : WorkspaceIndex). nested_entry text_key text_key j.0 j.1 i.member_by_type)
                (remove_extension-keeps uri s (unnamed uri s self))))

pub members-insert :
    (uri : Text) (s : Symbol) (self : WorkspaceIndex) (j : Text × Text)
    → nested_entry text_key text_key j.0 j.1 (insert_symbol uri s self).member_by_type
      ≡ nested_entry text_key text_key j.0 j.1 self.member_by_type
        ++ (if members_new s j then define uri s ∷ [] else [])
unfolding insert_member
members-insert uri s self j =
    insert_symbol-cases
      (λ i.
        nested_entry text_key text_key j.0 j.1 i.member_by_type
        ≡ nested_entry text_key text_key j.0 j.1 self.member_by_type
          ++ (if members_new s j then define uri s ∷ [] else []))
      uri s self
      (λ q. rw q (
        ap (λ (i : WorkspaceIndex). nested_entry text_key text_key j.0 j.1 i.member_by_type)
          (insert_native-keeps uri s self)
        ∙ sym (append-nil (nested_entry text_key text_key j.0 j.1 self.member_by_type))))
      (λ q t found.
        rw (q, found)
          (sym (append-nil (nested_entry text_key text_key j.0 j.1 self.member_by_type))))
      (λ q out r. rw (q, out, r) (members_in s.container_name uri s self j))
      (λ q out r.
        rw (q, out, r)
          (ap (λ (i : WorkspaceIndex). nested_entry text_key text_key j.0 j.1 i.member_by_type)
              (insert_state-keeps uri s (insert_extension uri s (named uri s self)))
            ∙ ap (λ (i : WorkspaceIndex). nested_entry text_key text_key j.0 j.1 i.member_by_type)
                (insert_extension-keeps uri s (named uri s self))
            ∙ sym (append-nil (nested_entry text_key text_key j.0 j.1 self.member_by_type))))

abbrev pub members_channel : Channel (Text × Text) Definition
members_channel = record {
  values = λ self j. nested_entry text_key text_key j.0 j.1 self.member_by_type;
  owner = λ d. d.uri;
  value = define;
  holds = members_new;
  hits = members_at;
  removable = λ s. true;
  owner-value = uri-define;
  holds-hits = λ s j r e. members_hits s j e;
  values-maps_with = λ a b j. refl;
  values-remove_symbol = members-remove;
  values-insert_symbol = members-insert;
}

-- members of enumerations, by name
abbrev pub enum_members_at : Symbol → Text → Bool
enum_members_at s n =
    not (requires_import s)
    && is_some s.container
    && is_some s.container_name
    && kind_eq s.kind enum_member
    && text_eq s.name n

abbrev pub enum_members_new : Symbol → Text → Bool
enum_members_new s n =
    not (requires_import s)
    && not (is_some (annotation_target_class_safe s))
    && is_some s.container
    && is_some s.container_name
    && kind_eq s.kind enum_member
    && text_eq s.name n

enum_members_in :
    (o : Option Text) (uri : Text) (s : Symbol) (self : WorkspaceIndex) (n : Text)
    → entry text_key n (insert_member_in o uri s self).enum_member_by_name
      ≡ entry text_key n self.enum_member_by_name
        ++ (if is_some o && kind_eq s.kind enum_member && text_eq s.name n
            then define uri s ∷ []
            else [])
unfolding insert_member_in
enum_members_in none uri s self n = sym (append-nil (entry text_key n self.enum_member_by_name))
enum_members_in (some c) uri s self n = elim (Bool-cases (kind_eq s.kind enum_member)) [
  | inl k ↦ rw k (entry-push_value text_key s.name n (define uri s) self.enum_member_by_name)
  | inr k ↦ rw k (sym (append-nil (entry text_key n self.enum_member_by_name)))
]

pub enum_members_hits :
    (s : Symbol) (n : Text) → enum_members_at s n ≡ false → enum_members_new s n ≡ false
enum_members_hits s n e = ground arith

pub enum_members-remove :
    (uri : Text) (s : Symbol) (self : WorkspaceIndex) (n : Text)
    → entry text_key n (remove_symbol uri s self).enum_member_by_name ≡ (
        if enum_members_at s n
        then filter (of_other uri) (entry text_key n self.enum_member_by_name)
        else entry text_key n self.enum_member_by_name)
unfolding remove_member
enum_members-remove uri s self n =
    remove_symbol-cases
      (λ i. entry text_key n i.enum_member_by_name ≡ (
        if enum_members_at s n
        then filter (of_other uri) (entry text_key n self.enum_member_by_name)
        else entry text_key n self.enum_member_by_name))
      uri s self
      (λ q. rw q (
        ap (λ (i : WorkspaceIndex). entry text_key n i.enum_member_by_name)
          (remove_native-keeps uri s self)))
      (λ q r. elim (Option-cases s.container_name) [
        | inl out ↦ rw (q, r, out) refl
        | inr (c, found) ↦ elim (Bool-cases (kind_eq s.kind enum_member)) [
          | inl k ↦
              rw (q, r, found, k)
                (entry-retain_and_prune text_key s.name n (of_other uri) self.enum_member_by_name)
          | inr k ↦ rw (q, r, found, k) refl
        ]
      ])
      (λ q r.
        rw (q, r)
          (ap (λ (i : WorkspaceIndex). entry text_key n i.enum_member_by_name)
              (remove_annotated-keeps uri s
                (remove_state uri s (remove_extension uri s (unnamed uri s self))))
            ∙ ap (λ (i : WorkspaceIndex). entry text_key n i.enum_member_by_name)
                (remove_state-keeps uri s (remove_extension uri s (unnamed uri s self)))
            ∙ ap (λ (i : WorkspaceIndex). entry text_key n i.enum_member_by_name)
                (remove_extension-keeps uri s (unnamed uri s self))))

pub enum_members-insert :
    (uri : Text) (s : Symbol) (self : WorkspaceIndex) (n : Text)
    → entry text_key n (insert_symbol uri s self).enum_member_by_name
      ≡ entry text_key n self.enum_member_by_name
        ++ (if enum_members_new s n then define uri s ∷ [] else [])
unfolding insert_member
enum_members-insert uri s self n =
    insert_symbol-cases
      (λ i.
        entry text_key n i.enum_member_by_name
        ≡ entry text_key n self.enum_member_by_name
          ++ (if enum_members_new s n then define uri s ∷ [] else []))
      uri s self
      (λ q. rw q (
        ap (λ (i : WorkspaceIndex). entry text_key n i.enum_member_by_name)
          (insert_native-keeps uri s self)
        ∙ sym (append-nil (entry text_key n self.enum_member_by_name))))
      (λ q t found. rw (q, found) (sym (append-nil (entry text_key n self.enum_member_by_name))))
      (λ q out r. rw (q, out, r) (enum_members_in s.container_name uri s self n))
      (λ q out r.
        rw (q, out, r)
          (ap (λ (i : WorkspaceIndex). entry text_key n i.enum_member_by_name)
              (insert_state-keeps uri s (insert_extension uri s (named uri s self)))
            ∙ ap (λ (i : WorkspaceIndex). entry text_key n i.enum_member_by_name)
                (insert_extension-keeps uri s (named uri s self))
            ∙ sym (append-nil (entry text_key n self.enum_member_by_name))))

abbrev pub enum_members_channel : Channel Text Definition
enum_members_channel = record {
  values = λ self n. entry text_key n self.enum_member_by_name;
  owner = λ d. d.uri;
  value = define;
  holds = enum_members_new;
  hits = enum_members_at;
  removable = λ s. true;
  owner-value = uri-define;
  holds-hits = λ s n r e. enum_members_hits s n e;
  values-maps_with = λ a b n. refl;
  values-remove_symbol = enum_members-remove;
  values-insert_symbol = enum_members-insert;
}
