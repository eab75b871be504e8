-- ===== src/Workspace/Maps.antt =====
-- The maps of the index together (src/resolve/workspace_index/).
use witcherscript_language.Base.{
  ◌≡◌, refl, Bool, true, not, ◌&&◌, List, [], ◌∷◌, Text, text_eq, All, is_some, filter, get,
}
use witcherscript_language.Symbols.Symbol.{Symbol, annotation_target_class_safe}
use witcherscript_language.Workspace.Defs.{WorkspaceIndex, DocContribution}
use witcherscript_language.Workspace.Update.{apply_contribution, remove_document, empty_index}
use witcherscript_language.Workspace.Channel.{Tracks, documents_of}
use witcherscript_language.Workspace.Channel.TopLevel.{top_level_channel, superclasses_channel}
use witcherscript_language.Workspace.Channel.Natives.{
  native_functions_channel, native_members_channel,
}
use witcherscript_language.Workspace.Channel.Members.{members_channel, enum_members_channel}
use witcherscript_language.Workspace.Channel.States.{states_channel}
use witcherscript_language.Workspace.Channel.Annotated.{annotated_channel}
use witcherscript_language.Workspace.Tracked.{apply_contribution-Tracks, remove_document-Tracks}

-- no symbol has both a container and an annotation that adds it to a class
abbrev pub Placed : List Symbol → Type 0
Placed ss =
    All (λ s. not (is_some s.container && is_some (annotation_target_class_safe s)) ≡ true) ss

-- each map is in step with the documents
pub record IsTracked (self : WorkspaceIndex) : Type 0 where
  pub top_level : Tracks top_level_channel self
  pub superclasses : Tracks superclasses_channel self
  pub native_functions : Tracks native_functions_channel self
  pub native_members : Tracks native_members_channel self
  pub members : Tracks members_channel self
  pub enum_members : Tracks enum_members_channel self
  pub states : Tracks states_channel self
  pub annotated : Tracks annotated_channel self

pub always : (ss : List Symbol) → All (λ (s : Symbol). ◌≡◌ {A = Bool} true true) ss
always [] = tt
always (s ∷ ss) = (refl, always ss)

pub apply_contribution-IsTracked :
    (uri : Text) (c : DocContribution) (self : WorkspaceIndex)
    → IsTracked self
    → Placed (documents_of self uri)
    → IsTracked (apply_contribution uri c self).0
apply_contribution-IsTracked uri c self t placed =
    let ok = always (documents_of self uri) in
    record {
      top_level = apply_contribution-Tracks top_level_channel uri c self t.top_level ok;
      superclasses = apply_contribution-Tracks superclasses_channel uri c self t.superclasses ok;
      native_functions =
          apply_contribution-Tracks native_functions_channel uri c self t.native_functions ok;
      native_members =
          apply_contribution-Tracks native_members_channel uri c self t.native_members ok;
      members = apply_contribution-Tracks members_channel uri c self t.members ok;
      enum_members = apply_contribution-Tracks enum_members_channel uri c self t.enum_members ok;
      states = apply_contribution-Tracks states_channel uri c self t.states ok;
      annotated = apply_contribution-Tracks annotated_channel uri c self t.annotated placed;
    }

pub remove_document-IsTracked :
    (uri : Text) (self : WorkspaceIndex)
    → IsTracked self
    → Placed (documents_of self uri)
    → IsTracked (remove_document uri self).0
remove_document-IsTracked uri self t placed =
    let ok = always (documents_of self uri) in
    record {
      top_level = remove_document-Tracks top_level_channel uri self t.top_level ok;
      superclasses = remove_document-Tracks superclasses_channel uri self t.superclasses ok;
      native_functions =
          remove_document-Tracks native_functions_channel uri self t.native_functions ok;
      native_members = remove_document-Tracks native_members_channel uri self t.native_members ok;
      members = remove_document-Tracks members_channel uri self t.members ok;
      enum_members = remove_document-Tracks enum_members_channel uri self t.enum_members ok;
      states = remove_document-Tracks states_channel uri self t.states ok;
      annotated = remove_document-Tracks annotated_channel uri self t.annotated placed;
    }

pub empty_index-IsTracked : IsTracked empty_index
unfolding empty_index filter get text_eq
empty_index-IsTracked = record {
  top_level = λ uri j. refl;
  superclasses = λ uri j. refl;
  native_functions = λ uri j. refl;
  native_members = λ uri j. refl;
  members = λ uri j. refl;
  enum_members = λ uri j. refl;
  states = λ uri j. refl;
  annotated = λ uri j. refl;
}
