-- ===== src/Tests/Subscribers.antt =====
-- Two files that observe names.
use witcherscript_language.Base.{
  ◌≡◌, refl, not, ◌&&◌, some, List, [], ◌∷◌, codes, text_eq, any, if◌then◌else◌, text_key, contains,
}
use witcherscript_language.Registry.Defs.{
  ObservationSet, ObservedKey, top_level_key, member_key, SubscriptionRegistry, no_subscribers,
  register, unregister, subscribers_of,
}
use witcherscript_language.Registry.Consistent.{
  IsConsistent, no_subscribers-IsConsistent, register-IsConsistent, unregister-IsConsistent,
}
use witcherscript_language.Registry.Notified.{
  watched, subscribers_of-register, subscribers_of-unregister,
}

abbrev first_file : ObservationSet
first_file = record {
  top_level = codes "CPlayer" ∷ [];
  members = (codes "CPlayer", codes "Jump") ∷ [];
  enum_members = [];
}

abbrev second_file : ObservationSet
second_file = record {
  top_level = codes "CActor" ∷ codes "CPlayer" ∷ [];
  members = [];
  enum_members = [];
}

abbrev one : SubscriptionRegistry
one = register (codes "a.ws") first_file no_subscribers

abbrev changed : List ObservedKey
changed = member_key (codes "CPlayer") (codes "Jump") ∷ top_level_key (codes "CActor") ∷ []

one-IsConsistent : IsConsistent one
one-IsConsistent =
    register-IsConsistent (codes "a.ws") first_file no_subscribers no_subscribers-IsConsistent

both :
    subscribers_of (register (codes "b.ws") second_file one) changed
    ≡ codes "b.ws" ∷ codes "a.ws" ∷ []
unfolding subscribers_of register text_eq contains
both = refl

register-IsConsistent_example : IsConsistent (register (codes "b.ws") second_file one)
register-IsConsistent_example =
    register-IsConsistent (codes "b.ws") second_file one one-IsConsistent

unregister-IsConsistent_example : IsConsistent (unregister (codes "a.ws") one)
unregister-IsConsistent_example = unregister-IsConsistent (codes "a.ws") one one-IsConsistent

subscribers_of-register_example :
    contains text_key
      (codes "a.ws")
      (subscribers_of (register (codes "a.ws") second_file one) changed)
    ≡ (if text_eq (codes "a.ws") (codes "a.ws")
        then any (watched (some second_file)) changed
        else contains text_key (codes "a.ws") (subscribers_of one changed))
subscribers_of-register_example =
    subscribers_of-register (codes "a.ws") (codes "a.ws") second_file one changed one-IsConsistent

subscribers_of-unregister_example :
    contains text_key (codes "a.ws") (subscribers_of (unregister (codes "a.ws") one) changed) ≡ (
      not (text_eq (codes "a.ws") (codes "a.ws"))
      && contains text_key (codes "a.ws") (subscribers_of one changed))
subscribers_of-unregister_example =
    subscribers_of-unregister (codes "a.ws") (codes "a.ws") one changed one-IsConsistent
