-- ===== src/Registry/Defs.antt =====
-- `SubscriptionRegistry` and its operations (src/resolve/subscription_registry.rs). A hash map is an
-- association list and a hash set a list.
use witcherscript_language.Base.{
  ◌≡◌, ◌↔◌, ap, Bool, true, ◌&&◌, Option, none, some, List, [], ◌∷◌, Text, text_eq, text_eq_iff,
  unwrap_or, arith, KeyEq, text_key, Assoc, set_insert, get, put, without,
}
use witcherscript_language.Registry.Buckets.{insert_all, remove_all}

-- `(String, String)`
abbrev pub pair_eq : (Text × Text) → (Text × Text) → Bool
pair_eq p q = text_eq p.0 q.0 && text_eq p.1 q.1

pub pair_eq_iff : (p q : Text × Text) → (pair_eq p q ≡ true) ↔ (p ≡ q)
pair_eq_iff (a, b) (c, d) = (
  λ h. ground (arith, text_eq_iff a c, text_eq_iff b d),
  λ e. ground (
    arith,
    text_eq_iff a c,
    text_eq_iff b d,
    ap (λ (p : Text × Text). p.0) e,
    ap (λ (p : Text × Text). p.1) e,
  ),
)

abbrev pub pair_key : KeyEq (Text × Text)
pair_key = record { eqb = pair_eq; eqb_iff = pair_eq_iff }

pub record ObservationSet : Type 0 where
  pub top_level : List Text
  pub members : List (Text × Text)
  pub enum_members : List Text

pub data ObservedKey : Type 0 where
  top_level_key : Text → ObservedKey
  member_key : Text → Text → ObservedKey
  enum_member_key : Text → ObservedKey

pub record SubscriptionRegistry : Type 0 where
  pub top_level : Assoc Text (List Text)
  pub members : Assoc (Text × Text) (List Text)
  pub enum_members : Assoc Text (List Text)
  pub keys_by_subscriber : Assoc Text ObservationSet

-- `SubscriptionRegistry::default()`
abbrev pub no_subscribers : SubscriptionRegistry
no_subscribers = record { top_level = []; members = []; enum_members = []; keys_by_subscriber = [] }

unfoldable pub forget : Text → ObservationSet → SubscriptionRegistry → SubscriptionRegistry
unfolding remove_all without
forget uri prev self = record {
  top_level = remove_all text_key self.top_level prev.top_level uri;
  members = remove_all pair_key self.members prev.members uri;
  enum_members = remove_all text_key self.enum_members prev.enum_members uri;
  keys_by_subscriber = without text_key uri self.keys_by_subscriber;
}

unfoldable pub unregister : Text → SubscriptionRegistry → SubscriptionRegistry
unfolding forget get
unregister uri self = elim (get text_key uri self.keys_by_subscriber) [
  | none ↦ self
  | some prev ↦ forget uri prev self
]

unfoldable pub observe : Text → ObservationSet → SubscriptionRegistry → SubscriptionRegistry
unfolding insert_all put
observe uri observations self = record {
  top_level = insert_all text_key self.top_level observations.top_level uri;
  members = insert_all pair_key self.members observations.members uri;
  enum_members = insert_all text_key self.enum_members observations.enum_members uri;
  keys_by_subscriber = put text_key uri observations self.keys_by_subscriber;
}

unfoldable pub register : Text → ObservationSet → SubscriptionRegistry → SubscriptionRegistry
unfolding unregister observe
register uri observations self = observe uri observations (unregister uri self)

unfoldable pub bucket_of : SubscriptionRegistry → ObservedKey → Option (List Text)
unfolding get
bucket_of self (top_level_key n) = get text_key n self.top_level
bucket_of self (member_key c n) = get pair_key (c, n) self.members
bucket_of self (enum_member_key n) = get text_key n self.enum_members

-- the loop that inserts a bucket's subscribers
unfoldable pub add_all : List Text → List Text → List Text
unfolding set_insert
add_all [] out = out
add_all (uri ∷ set) out = add_all set (set_insert text_key uri out)

unfoldable pub subscribers_from : SubscriptionRegistry → List ObservedKey → List Text → List Text
unfolding bucket_of add_all
subscribers_from self [] out = out
subscribers_from self (key ∷ keys) out =
    subscribers_from self keys (add_all (unwrap_or (bucket_of self key) []) out)

unfoldable pub subscribers_of : SubscriptionRegistry → List ObservedKey → List Text
unfolding subscribers_from
subscribers_of self keys = subscribers_from self keys []
