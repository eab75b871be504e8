-- ===== src/Registry/Notified.antt =====
-- `subscribers_of`, and what it returns behind `register` and `unregister`
-- (src/resolve/subscription_registry.rs).
use witcherscript_language.Base.{
  ◌≡◌, refl, ◌∙◌, Bool, false, ◌&&◌, ◌||◌, not, Option, none, some, List, [], ◌∷◌, Text, text_eq,
  unwrap_or, arith, if◌then◌else◌, ◌>>=◌, any, text_key, contains, get, contains-set_insert,
  set_insert, get-put, Bool-cases, inl, inr,
}
use witcherscript_language.Registry.Buckets.{has}
use witcherscript_language.Registry.Defs.{
  pair_key, ObservationSet, ObservedKey, top_level_key, member_key, enum_member_key,
  SubscriptionRegistry, unregister, observe, register, bucket_of, add_all, subscribers_from,
  subscribers_of,
}
use witcherscript_language.Registry.Consistent.{
  IsConsistent, unregister-IsConsistent, register-IsConsistent, get-unregister,
}

-- the subscriber observes the key
abbrev pub watched : Option ObservationSet → ObservedKey → Bool
watched none key = false
watched (some o) (top_level_key n) = contains text_key n o.top_level
watched (some o) (member_key c n) = contains pair_key (c, n) o.members
watched (some o) (enum_member_key n) = contains text_key n o.enum_members

contains-add_all :
    (set out : List Text) (v : Text)
    → contains text_key v (add_all set out) ≡ (contains text_key v set || contains text_key v out)
unfolding add_all contains
contains-add_all [] out v = refl
contains-add_all (u ∷ set) out v =
    contains-add_all set (set_insert text_key u out) v
    ∙ swap (contains text_key v set) (text_eq u v) (contains text_key v out)
        (contains text_key v (set_insert text_key u out)) (contains-set_insert text_key u v out)
  where
    swap : (a b c d : Bool) → d ≡ (b || c) → (a || d) ≡ ((b || a) || c)
    swap a b c d e = ground arith

module _ (self : SubscriptionRegistry) (c : IsConsistent self) where
  bucket_watched :
      (key : ObservedKey) (v : Text)
      → contains text_key v (unwrap_or (bucket_of self key) [])
        ≡ watched (get text_key v self.keys_by_subscriber) key
  unfolding bucket_of has contains
  bucket_watched (top_level_key n) v = c.top_level n v ∙ go (get text_key v self.keys_by_subscriber)
    where
      go :
          (o : Option ObservationSet)
          → contains text_key n (unwrap_or (o >>= λ p. some p.top_level) [])
            ≡ watched o (top_level_key n)
      go none = refl
      go (some o) = refl
  bucket_watched (member_key d n) v =
      c.members (d, n) v ∙ go (get text_key v self.keys_by_subscriber)
    where
      go :
          (o : Option ObservationSet)
          → contains pair_key (d, n) (unwrap_or (o >>= λ p. some p.members) [])
            ≡ watched o (member_key d n)
      go none = refl
      go (some o) = refl
  bucket_watched (enum_member_key n) v =
      c.enum_members n v ∙ go (get text_key v self.keys_by_subscriber)
    where
      go :
          (o : Option ObservationSet)
          → contains text_key n (unwrap_or (o >>= λ p. some p.enum_members) [])
            ≡ watched o (enum_member_key n)
      go none = refl
      go (some o) = refl

  contains-subscribers_from :
      (keys : List ObservedKey) (out : List Text) (v : Text)
      → contains text_key v (subscribers_from self keys out)
        ≡ (any (watched (get text_key v self.keys_by_subscriber)) keys || contains text_key v out)
  unfolding subscribers_from any
  contains-subscribers_from [] out v = refl
  contains-subscribers_from (key ∷ keys) out v =
      let set = unwrap_or (bucket_of self key) [] in
      contains-subscribers_from keys (add_all set out) v
      ∙ join (any (watched (get text_key v self.keys_by_subscriber)) keys)
          (watched (get text_key v self.keys_by_subscriber) key) (contains text_key v out)
          (contains text_key v set) (contains text_key v (add_all set out))
          (contains-add_all set out v) (bucket_watched key v)
    where
      join : (a b c s d : Bool) → d ≡ (s || c) → s ≡ b → (a || d) ≡ ((b || a) || c)
      join a b c s d e f = ground arith

  -- In a consistent registry, `subscribers_of` returns a subscriber exactly if it observes one of
  -- the keys.
  pub contains-subscribers_of :
      (keys : List ObservedKey) (uri : Text)
      → contains text_key uri (subscribers_of self keys)
        ≡ any (watched (get text_key uri self.keys_by_subscriber)) keys
  unfolding subscribers_of contains
  contains-subscribers_of keys v = contains-subscribers_from keys [] v ∙ or_false _
    where
      or_false : (b : Bool) → (b || false) ≡ b
      or_false b = ground arith

get-register :
    (u v : Text) (o : ObservationSet) (self : SubscriptionRegistry)
    → get text_key v (register u o self).keys_by_subscriber
      ≡ (if text_eq u v then some o else get text_key v self.keys_by_subscriber)
unfolding register observe
get-register u v o self = elim (Bool-cases (text_eq u v)) [
  | inl e ↦ rw (get-put text_key u v o (unregister u self).keys_by_subscriber, e) refl
  | inr e ↦
      rw (get-put text_key u v o (unregister u self).keys_by_subscriber, get-unregister u v self, e)
        refl
]

-- Behind `register` in a consistent registry, its subscriber is returned exactly for the keys that
-- it observes now, and any other subscriber for the same keys as before.
pub subscribers_of-register :
    (u v : Text) (o : ObservationSet) (self : SubscriptionRegistry) (keys : List ObservedKey)
    → IsConsistent self
    → contains text_key v (subscribers_of (register u o self) keys) ≡ (
        if text_eq u v
        then any (watched (some o)) keys
        else contains text_key v (subscribers_of self keys))
subscribers_of-register u v o self keys c = elim (Bool-cases (text_eq u v)) [
  | inl e ↦
      rw
        (
          contains-subscribers_of (register u o self) (register-IsConsistent u o self c) keys v,
          get-register u v o self,
          e,
        )
        refl
  | inr e ↦
      rw
        (
          contains-subscribers_of (register u o self) (register-IsConsistent u o self c) keys v,
          contains-subscribers_of self c keys v,
          get-register u v o self,
          e,
        )
        refl
]

-- Behind `unregister` in a consistent registry, its subscriber is returned for no keys, and any
-- other subscriber for the same keys as before.
pub subscribers_of-unregister :
    (u v : Text) (self : SubscriptionRegistry) (keys : List ObservedKey)
    → IsConsistent self
    → contains text_key v (subscribers_of (unregister u self) keys)
      ≡ (not (text_eq u v) && contains text_key v (subscribers_of self keys))
unfolding any
subscribers_of-unregister u v self keys c = elim (Bool-cases (text_eq u v)) [
  | inl e ↦
      rw
        (
          contains-subscribers_of (unregister u self) (unregister-IsConsistent u self c) keys v,
          get-unregister u v self,
          e,
        )
        (nothing keys)
  | inr e ↦
      rw
        (
          contains-subscribers_of (unregister u self) (unregister-IsConsistent u self c) keys v,
          contains-subscribers_of self c keys v,
          get-unregister u v self,
          e,
        )
        refl
]
  where
    nothing : (keys : List ObservedKey) → any (watched none) keys ≡ false
    nothing [] = refl
    nothing (k ∷ ks) = nothing ks
