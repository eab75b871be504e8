-- ===== src/Registry/Consistent.antt =====
-- The agreement of the buckets with the keys by subscriber
-- (src/resolve/subscription_registry.rs), and the operations on it.
use witcherscript_language.Base.{
  ◌≡◌, refl, ap, sym, ◌∙◌, Bool, true, false, not, ◌&&◌, ◌||◌, Option, none, some, List, [], Text,
  text_eq, text_eq_iff, text_eq_refl, unwrap_or, arith, Bool-cases, Option-cases, inl, inr,
  if◌then◌else◌, ◌>>=◌, KeyEq, text_key, Assoc, contains, get, put, without, get-put, get-without,
}
use witcherscript_language.Registry.Buckets.{
  has, insert_all, remove_all, has-insert_all, has-remove_all,
}
use witcherscript_language.Registry.Defs.{
  pair_key, ObservationSet, SubscriptionRegistry, no_subscribers, forget, unregister, observe,
  register,
}

-- what a subscriber observes of one kind of keys
abbrev pub observed :
    {K : Type 0} → (ObservationSet → List K) → SubscriptionRegistry → Text → List K
observed kind r uri = unwrap_or (get text_key uri r.keys_by_subscriber >>= λ o. some (kind o)) []

-- a bucket holds exactly the observers of each key
abbrev pub Tracks : {K : Type 0} → KeyEq K → Assoc K (List Text) → (Text → List K) → Type 0
Tracks {K = K} key bucket keys =
    (k : K) (uri : Text) → has key bucket k uri ≡ contains key k (keys uri)

pub record IsConsistent (r : SubscriptionRegistry) : Type 0 where
  pub top_level : Tracks text_key r.top_level (observed (λ o. o.top_level) r)
  pub members : Tracks pair_key r.members (observed (λ o. o.members) r)
  pub enum_members : Tracks text_key r.enum_members (observed (λ o. o.enum_members) r)

-- An empty registry is consistent.
pub no_subscribers-IsConsistent : IsConsistent no_subscribers
unfolding has get contains
no_subscribers-IsConsistent = record {
  top_level = λ k uri. refl;
  members = λ k uri. refl;
  enum_members = λ k uri. refl;
}

module _ {K : Type 0} (key : KeyEq K) (kind : ObservationSet → List K)
    (bucket : Assoc K (List Text)) where
  abbrev kept : Assoc Text ObservationSet → Text → List K
  kept keys uri = unwrap_or (get text_key uri keys >>= λ o. some (kind o)) []

  kept-without :
      (keys : Assoc Text ObservationSet) (u v : Text)
      → kept (without text_key u keys) v ≡ (if text_eq u v then [] else kept keys v)
  kept-without keys u v = elim (Bool-cases (text_eq u v)) [
    | inl e ↦ rw (get-without text_key u v keys, e) refl
    | inr e ↦ rw (get-without text_key u v keys, e) refl
  ]

  kept-put :
      (keys : Assoc Text ObservationSet) (u v : Text) (o : ObservationSet)
      → kept (put text_key u o keys) v ≡ (if text_eq u v then kind o else kept keys v)
  kept-put keys u v o = elim (Bool-cases (text_eq u v)) [
    | inl e ↦ rw (get-put text_key u v o keys, e) refl
    | inr e ↦ rw (get-put text_key u v o keys, e) refl
  ]

  kept_found :
      (keys : Assoc Text ObservationSet) (u v : Text) (o : Option ObservationSet)
      → get text_key u keys ≡ o
      → text_eq u v ≡ true
      → kept keys v ≡ unwrap_or (o >>= λ p. some (kind p)) []
  kept_found keys u v o found e =
      ap (λ w. kept keys w) (sym ((text_eq_iff u v).0 e))
      ∙ ap (λ q. unwrap_or (q >>= λ p. some (kind p)) []) found

  Tracks-remove :
      (keys : Assoc Text ObservationSet) (u : Text) (prev : ObservationSet)
      → get text_key u keys ≡ some prev
      → Tracks key bucket (kept keys)
      → Tracks key (remove_all key bucket (kind prev) u) (kept (without text_key u keys))
  unfolding contains
  Tracks-remove keys u prev found t k v = elim (Bool-cases (text_eq u v)) [
    | inl e ↦
        rw
          (
            kept-without keys u v,
            has-remove_all key bucket (kind prev) k u v,
            t k v,
            kept_found keys u v (some prev) found e,
            e,
          )
          (gone (contains key k (kind prev)))
    | inr e ↦
        rw (kept-without keys u v, has-remove_all key bucket (kind prev) k u v, t k v, e)
          (stays (contains key k (kept keys v)) (contains key k (kind prev)))
  ]
    where
      gone : (b : Bool) → (b && not (b && true)) ≡ false
      gone b = ground arith

      stays : (b c : Bool) → (b && not (c && false)) ≡ b
      stays b c = ground arith

  Tracks-insert :
      (keys : Assoc Text ObservationSet) (u : Text) (o : ObservationSet)
      → get text_key u keys ≡ none
      → Tracks key bucket (kept keys)
      → Tracks key (insert_all key bucket (kind o) u) (kept (put text_key u o keys))
  unfolding contains
  Tracks-insert keys u o found t k v = elim (Bool-cases (text_eq u v)) [
    | inl e ↦
        rw
          (
            kept-put keys u v o,
            has-insert_all key bucket (kind o) k u v,
            t k v,
            kept_found keys u v none found e,
            e,
          )
          (new_one (contains key k (kind o)))
    | inr e ↦
        rw (kept-put keys u v o, has-insert_all key bucket (kind o) k u v, t k v, e)
          (others (contains key k (kind o)) (contains key k (kept keys v)))
  ]
    where
      new_one : (b : Bool) → (b && true || false) ≡ b
      new_one b = ground arith

      others : (b c : Bool) → (b && false || c) ≡ c
      others b c = ground arith

forget-IsConsistent :
    (u : Text) (prev : ObservationSet) (r : SubscriptionRegistry)
    → get text_key u r.keys_by_subscriber ≡ some prev
    → IsConsistent r
    → IsConsistent (forget u prev r)
unfolding forget
forget-IsConsistent u prev r found c = record {
  top_level =
      Tracks-remove text_key (λ o. o.top_level) r.top_level r.keys_by_subscriber u prev found
        c.top_level;
  members =
      Tracks-remove pair_key (λ o. o.members) r.members r.keys_by_subscriber u prev found c.members;
  enum_members =
      Tracks-remove text_key (λ o. o.enum_members) r.enum_members r.keys_by_subscriber u prev found
        c.enum_members;
}

pub unregister-none :
    (u : Text) (r : SubscriptionRegistry)
    → get text_key u r.keys_by_subscriber ≡ none
    → unregister u r ≡ r
unfolding unregister
unregister-none u r e = rw (e, unregister) refl

pub unregister-some :
    (u : Text) (r : SubscriptionRegistry) (prev : ObservationSet)
    → get text_key u r.keys_by_subscriber ≡ some prev
    → unregister u r ≡ forget u prev r
unfolding unregister
unregister-some u r prev e = rw (e, unregister) refl

-- Unregistering a subscriber keeps a consistent registry consistent.
pub unregister-IsConsistent :
    (uri : Text) (self : SubscriptionRegistry)
    → IsConsistent self
    → IsConsistent (unregister uri self)
unregister-IsConsistent u r c = elim (Option-cases (get text_key u r.keys_by_subscriber)) [
  | inl out ↦ rw (unregister-none u r out) c
  | inr (prev, found) ↦ rw (unregister-some u r prev found) (forget-IsConsistent u prev r found c)
]

-- Behind `unregister` the registry has no keys of the subscriber, and the others' are kept.
pub get-unregister :
    (u v : Text) (r : SubscriptionRegistry)
    → get text_key v (unregister u r).keys_by_subscriber
      ≡ (if text_eq u v then none else get text_key v r.keys_by_subscriber)
unfolding forget
get-unregister u v r = elim (Option-cases (get text_key u r.keys_by_subscriber)) [
  | inl out ↦ rw (unregister-none u r out) (ground (arith, same out))
  | inr (prev, found) ↦
      rw (unregister-some u r prev found) (get-without text_key u v r.keys_by_subscriber)
]
  where
    same :
        get text_key u r.keys_by_subscriber ≡ none
        → text_eq u v ≡ true
        → get text_key v r.keys_by_subscriber ≡ none
    same out e = rw (← (text_eq_iff u v).0 e) out

-- Registering a subscriber, new or known, keeps a consistent registry consistent.
pub register-IsConsistent :
    (uri : Text) (observations : ObservationSet) (self : SubscriptionRegistry)
    → IsConsistent self
    → IsConsistent (register uri observations self)
unfolding register observe
register-IsConsistent u o self c =
    let r = unregister u self in
    let gone : get text_key u r.keys_by_subscriber ≡ none =
      rw (get-unregister u u self, text_eq_refl u) refl in
    let k = unregister-IsConsistent u self c in
    record {
      top_level =
          Tracks-insert text_key (λ o. o.top_level) r.top_level r.keys_by_subscriber u o gone
            k.top_level;
      members =
          Tracks-insert pair_key (λ o. o.members) r.members r.keys_by_subscriber u o gone k.members;
      enum_members =
          Tracks-insert text_key (λ o. o.enum_members) r.enum_members r.keys_by_subscriber u o gone
            k.enum_members;
    }
