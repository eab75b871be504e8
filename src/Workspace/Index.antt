-- ===== src/Workspace/Index.antt =====
-- The operations that change the index (src/resolve/workspace_index/indices.rs and mod.rs). The
-- standard library's hasher is a parameter.
use witcherscript_language.Base.{
  Bool, ◌||◌, not, Option, none, some, List, [], ◌∷◌, Text, text_eq, text_key, get, map_or, is_some,
  if◌then◌else◌, push_value, retain_and_prune, push_nested, retain_and_prune_nested,
}
use witcherscript_language.Symbols.Kinds.{enum_member, state, kind_eq, extends_by_type_name}
use witcherscript_language.Symbols.Symbol.{
  Symbol, type_name, requires_import, annotation_target_class_safe,
}
use witcherscript_language.Workspace.Defs.{Definition, WorkspaceIndex}

-- the tests that `retain` keeps a value by
abbrev pub of_other : Text → Definition → Bool
of_other uri d = not (text_eq d.uri uri)

abbrev pub pair_of_other : Text → Text × Text → Bool
pair_of_other uri p = not (text_eq p.0 uri)

abbrev pub pair_other : Text → Text → Text × Text → Bool
pair_other uri name p = not (text_eq p.0 uri) || not (text_eq p.1 name)

unfoldable pub define : Text → Symbol → Definition
define uri sym = record { uri = uri; symbol = sym }

unfoldable pub remove_native : Text → Symbol → WorkspaceIndex → WorkspaceIndex
unfolding retain_and_prune retain_and_prune_nested
remove_native uri sym self =
    map_or sym.container_name
      (record self {
        native_functions_by_name =
            retain_and_prune text_key sym.name (of_other uri) self.native_functions_by_name;
      })
      λ container. record self {
        native_member_by_type =
            retain_and_prune_nested text_key text_key container sym.name (of_other uri)
              self.native_member_by_type;
      }

-- the part of the loop body for `extends_by_type_name`
unfoldable pub remove_extension : Text → Symbol → WorkspaceIndex → WorkspaceIndex
unfolding retain_and_prune extends_by_type_name
remove_extension uri sym self =
    if extends_by_type_name sym.kind
    then (let unlinked : WorkspaceIndex = record self {
      superclass_by_name =
          retain_and_prune text_key sym.name (pair_of_other uri) self.superclass_by_name;
    } in
        map_or sym.base_class unlinked λ base. record unlinked {
          subclasses_by_name =
              retain_and_prune text_key base (pair_other uri sym.name) unlinked.subclasses_by_name;
        })
    else self

unfoldable pub remove_state_of : Option Text → Text → Symbol → WorkspaceIndex → WorkspaceIndex
unfolding retain_and_prune_nested
remove_state_of none uri sym self = self
remove_state_of (some owner) uri sym self = record self {
  states_by_owner =
      retain_and_prune_nested text_key text_key owner sym.name (of_other uri) self.states_by_owner;
}

unfoldable pub remove_state : Text → Symbol → WorkspaceIndex → WorkspaceIndex
unfolding remove_state_of
remove_state uri sym self =
    if kind_eq sym.kind state then remove_state_of sym.owner_class uri sym self else self

unfoldable pub remove_annotated : Text → Symbol → WorkspaceIndex → WorkspaceIndex
unfolding retain_and_prune_nested
remove_annotated uri sym self = map_or (annotation_target_class_safe sym) self λ target.
    record self {
      annotated_members_by_type =
          retain_and_prune_nested text_key text_key target sym.name (of_other uri)
            self.annotated_members_by_type;
    }

unfoldable pub remove_member : Text → Symbol → WorkspaceIndex → WorkspaceIndex
unfolding retain_and_prune retain_and_prune_nested
remove_member uri sym self = map_or sym.container_name self λ cn.
    let removed : WorkspaceIndex = record self {
      member_by_type =
          retain_and_prune_nested text_key text_key cn sym.name (of_other uri) self.member_by_type;
    } in
    if kind_eq sym.kind enum_member
    then record removed {
      enum_member_by_name =
          retain_and_prune text_key sym.name (of_other uri) removed.enum_member_by_name;
    }
    else removed

-- the body of the loop of `remove_from_indices`
unfoldable pub remove_symbol : Text → Symbol → WorkspaceIndex → WorkspaceIndex
unfolding remove_native remove_extension remove_state remove_annotated remove_member
    retain_and_prune requires_import type_name
remove_symbol uri sym self =
    if requires_import sym
    then remove_native uri sym self
    else if is_some sym.container
    then remove_member uri sym self
    else let unnamed : WorkspaceIndex = record self {
      top_level_by_name =
          retain_and_prune text_key (type_name sym) (of_other uri) self.top_level_by_name;
    } in
      remove_annotated uri sym (remove_state uri sym (remove_extension uri sym unnamed))

unfoldable pub remove_each : Text → List Symbol → WorkspaceIndex → WorkspaceIndex
unfolding remove_symbol
remove_each uri [] self = self
remove_each uri (sym ∷ ss) self = remove_each uri ss (remove_symbol uri sym self)

unfoldable pub remove_from_indices : Text → WorkspaceIndex → WorkspaceIndex
unfolding remove_each get
remove_from_indices uri self =
    map_or (get text_key uri self.documents) self λ old_symbols. remove_each uri old_symbols self

unfoldable pub insert_native_in : Option Text → Text → Symbol → WorkspaceIndex → WorkspaceIndex
unfolding push_value push_nested
insert_native_in none uri sym self = record self {
  native_functions_by_name =
      push_value text_key sym.name (define uri sym) self.native_functions_by_name;
}
insert_native_in (some container) uri sym self = record self {
  native_member_by_type =
      push_nested text_key text_key container sym.name (define uri sym) self.native_member_by_type;
}

unfoldable pub insert_native : Text → Symbol → WorkspaceIndex → WorkspaceIndex
unfolding insert_native_in
insert_native uri sym self = insert_native_in sym.container_name uri sym self

unfoldable pub insert_extension : Text → Symbol → WorkspaceIndex → WorkspaceIndex
unfolding push_value extends_by_type_name
insert_extension uri sym self =
    if extends_by_type_name sym.kind
    then map_or sym.base_class self (λ superclass. record self {
      superclass_by_name = push_value text_key sym.name (uri, superclass) self.superclass_by_name;
      subclasses_by_name = push_value text_key superclass (uri, sym.name) self.subclasses_by_name;
    })
    else self

unfoldable pub insert_state_of : Option Text → Text → Symbol → WorkspaceIndex → WorkspaceIndex
unfolding push_nested
insert_state_of none uri sym self = self
insert_state_of (some owner) uri sym self = record self {
  states_by_owner =
      push_nested text_key text_key owner sym.name (define uri sym) self.states_by_owner;
}

unfoldable pub insert_state : Text → Symbol → WorkspaceIndex → WorkspaceIndex
unfolding insert_state_of
insert_state uri sym self =
    if kind_eq sym.kind state then insert_state_of sym.owner_class uri sym self else self

unfoldable pub insert_member_in : Option Text → Text → Symbol → WorkspaceIndex → WorkspaceIndex
unfolding push_value push_nested
insert_member_in none uri sym self = self
insert_member_in (some cn) uri sym self =
    let inserted : WorkspaceIndex = record self {
      member_by_type =
          push_nested text_key text_key cn sym.name (define uri sym) self.member_by_type;
    } in
    if kind_eq sym.kind enum_member
    then record inserted {
      enum_member_by_name =
          push_value text_key sym.name (define uri sym) inserted.enum_member_by_name;
    }
    else inserted

unfoldable pub insert_member : Text → Symbol → WorkspaceIndex → WorkspaceIndex
unfolding insert_member_in
insert_member uri sym self = insert_member_in sym.container_name uri sym self

-- the body of the loop of `insert_into_indices`
unfoldable pub insert_symbol : Text → Symbol → WorkspaceIndex → WorkspaceIndex
unfolding insert_native insert_extension insert_state insert_member push_value push_nested
    requires_import type_name
insert_symbol uri sym self =
    if requires_import sym
    then insert_native uri sym self
    else map_or (annotation_target_class_safe sym)
        (if is_some sym.container
          then insert_member uri sym self
          else let named : WorkspaceIndex = record self {
            top_level_by_name =
                push_value text_key (type_name sym) (define uri sym) self.top_level_by_name;
          } in
            insert_state uri sym (insert_extension uri sym named))
        (λ target. record self {
          annotated_members_by_type =
              push_nested text_key text_key target sym.name (define uri sym)
                self.annotated_members_by_type;
        })

unfoldable pub insert_into_indices : Text → List Symbol → WorkspaceIndex → WorkspaceIndex
unfolding insert_symbol
insert_into_indices uri [] self = self
insert_into_indices uri (sym ∷ ss) self = insert_into_indices uri ss (insert_symbol uri sym self)
