-- ===== src/Workspace/Keys.antt =====
-- The keys under which dependents observe a document's symbols
-- (src/resolve/workspace_index/subscribers.rs). The standard library's hasher is a
-- parameter, a function of what is written into it.
use witcherscript_language.Base.{
  ℕ, ◌+◌, ◌≡◌, ◌↔◌, ◌>>=◌, refl, ap, Bool, true, false, ◌&&◌, Option, none, some, List, [], ◌∷◌,
  ◌++◌, Text, text_eq, text_eq_iff, text_eq_refl, text_eq→eq, nat_key, KeyEq, Assoc, get, put,
  map_or, unwrap_or, get_elem?, is_some, filter, length, arith, ◌==◌, if◌then◌else◌, bit_xor,
}
use witcherscript_language.Registry.Defs.{ObservedKey, top_level_key, member_key, enum_member_key}
use witcherscript_language.Symbols.Kinds.{
  FuncFlavour, kind_rank, access_rank, variable, parameter, enum_member, kind_eq,
}
use witcherscript_language.Symbols.Specifiers.{Specifiers}
use witcherscript_language.Types.Ty.{Ty}
use witcherscript_language.Symbols.Symbol.{Annotation, Symbol, SymbolId}

abbrev pub observed_key_eq : ObservedKey → ObservedKey → Bool
observed_key_eq (top_level_key m) (top_level_key n) = text_eq m n
observed_key_eq (member_key c m) (member_key d n) = text_eq c d && text_eq m n
observed_key_eq (enum_member_key m) (enum_member_key n) = text_eq m n
observed_key_eq _ _ = false

key_eq_refl : (k : ObservedKey) → observed_key_eq k k ≡ true
key_eq_refl (top_level_key m) = text_eq_refl m
key_eq_refl (member_key c m) = rw (text_eq_refl c, text_eq_refl m) refl
key_eq_refl (enum_member_key m) = text_eq_refl m

key_eq→eq : (j k : ObservedKey) → observed_key_eq j k ≡ true → j ≡ k
key_eq→eq (top_level_key m) (top_level_key n) h = ap top_level_key (text_eq→eq m n h)
key_eq→eq (member_key c m) (member_key d n) h =
    let owners : c ≡ d = ground (arith, text_eq_iff c d) in
    let names : m ≡ n = ground (arith, text_eq_iff m n) in rw (owners, names) refl
key_eq→eq (enum_member_key m) (enum_member_key n) h = ap enum_member_key (text_eq→eq m n h)
key_eq→eq (top_level_key m) (member_key d n) h = cc
key_eq→eq (top_level_key m) (enum_member_key n) h = cc
key_eq→eq (member_key c m) (top_level_key n) h = cc
key_eq→eq (member_key c m) (enum_member_key n) h = cc
key_eq→eq (enum_member_key m) (top_level_key n) h = cc
key_eq→eq (enum_member_key m) (member_key d n) h = cc

pub observed_key_eq_iff : (j k : ObservedKey) → (observed_key_eq j k ≡ true) ↔ (j ≡ k)
observed_key_eq_iff j k = (key_eq→eq j k, λ e. rw (← e) (key_eq_refl j))

abbrev pub observed_key : KeyEq ObservedKey
observed_key = record { eqb = observed_key_eq; eqb_iff = observed_key_eq_iff }

unfoldable pub is_outward_visible : Symbol → Bool
is_outward_visible s = elim s.kind [ variable ↦ false | parameter ↦ false | _ ↦ true ]

unfoldable pub outward_key_for : Symbol → ObservedKey
outward_key_for s = map_or s.container (top_level_key s.name) λ c. elim s.kind [
  | enum_member ↦ enum_member_key s.name
  | _ ↦ member_key (unwrap_or s.container_name []) s.name
]

-- `entry(key).and_modify(|h| *h ^= hash).or_insert(hash)`
unfoldable pub fold_hash : ObservedKey → ℕ → Assoc ObservedKey ℕ → Assoc ObservedKey ℕ
unfolding get put
fold_hash key hash out =
    put observed_key key (map_or (get observed_key key out) hash (λ h. bit_xor h hash)) out

-- what is written into a hasher; the standard library's `DefaultHasher` is a function of it
pub data Written : Type 0 where
  text_written : Text → Written
  optional_text : Option Text → Written
  optional_type : Option Ty → Written
  optional_flavour : Option FuncFlavour → Written
  specifiers_written : Specifiers → Written
  byte_written usize_written u64_written : ℕ → Written

abbrev pub annotations_written : List Annotation → List Written
annotations_written [] = []
annotations_written (a ∷ l) = text_written a.name ∷ optional_text a.argument ∷ annotations_written l

unfoldable pub hash_symbol_fields : Symbol → List Written
hash_symbol_fields s =
    (text_written s.name
      ∷ byte_written (kind_rank s.kind)
      ∷ optional_text s.container_name
      ∷ optional_type s.type_annotation
      ∷ optional_text s.base_class
      ∷ optional_text s.owner_class
      ∷ optional_flavour s.flavour
      ∷ usize_written (length s.annotations)
      ∷ annotations_written s.annotations)
    ++ (byte_written (access_rank s.access) ∷ specifiers_written s.specifiers ∷ [])

abbrev pub is_surface : Symbol → Bool
is_surface s = elim s.kind [ variable ↦ false | _ ↦ true ]

unfoldable pub each_written : List Symbol → List Written
unfolding hash_symbol_fields
each_written [] = []
each_written (s ∷ ss) = hash_symbol_fields s ++ each_written ss

module _ (finish : List Written → ℕ) where
  unfoldable pub outward_symbol_hash : Symbol → ℕ
  unfolding hash_symbol_fields
  outward_symbol_hash s = finish (hash_symbol_fields s)

  unfoldable pub outward_parameter_hash : Symbol → ℕ → ℕ
  unfolding hash_symbol_fields
  outward_parameter_hash s ordinal = finish (u64_written ordinal ∷ hash_symbol_fields s)

  unfoldable pub doc_surface_hash : Text → List Symbol → ℕ
  unfolding each_written filter
  doc_surface_hash uri symbols =
      let externally_visible : List Symbol = filter is_surface symbols in
      finish (
        text_written uri
        ∷ usize_written (length externally_visible)
        ∷ each_written externally_visible)

  unfoldable pub fold_symbols : List Symbol → Assoc ObservedKey ℕ → Assoc ObservedKey ℕ
  unfolding is_outward_visible outward_key_for fold_hash outward_symbol_hash
  fold_symbols [] out = out
  fold_symbols (s ∷ ss) out = fold_symbols ss (
      if is_outward_visible s
      then fold_hash (outward_key_for s) (outward_symbol_hash s) out
      else out)

  -- the loop over the parameters, with the ordinals of their callables
  unfoldable pub fold_parameters :
      List Symbol → List Symbol → Assoc SymbolId ℕ → Assoc ObservedKey ℕ → Assoc ObservedKey ℕ
  unfolding outward_key_for fold_hash outward_parameter_hash get put
  fold_parameters symbols [] ordinals out = out
  fold_parameters symbols (s ∷ ss) ordinals out =
      let skip = fold_parameters symbols ss ordinals out in
      if kind_eq s.kind parameter
      then map_or (s.container >>= λ id. get_elem? symbols id) skip (λ callable.
        let ordinal = unwrap_or (get nat_key callable.id ordinals) 0 in
        fold_parameters symbols ss (put nat_key callable.id (ordinal + 1) ordinals)
          (fold_hash (outward_key_for callable) (outward_parameter_hash s ordinal) out))
      else skip

  unfoldable pub outward_hash_map : List Symbol → Assoc ObservedKey ℕ
  unfolding fold_symbols fold_parameters
  outward_hash_map symbols = fold_parameters symbols symbols [] (fold_symbols symbols [])

abbrev pub same_hash : Option ℕ → ℕ → Bool
same_hash none v = false
same_hash (some h) v = h == v

-- keys whose hash differs from the one in `prev`, and keys that are not in `next`
unfoldable pub changed_keys : Assoc ObservedKey ℕ → Assoc ObservedKey ℕ → List ObservedKey
unfolding get
changed_keys prev [] = []
changed_keys prev ((k, v) ∷ next) =
    let rest = changed_keys prev next in
    if same_hash (get observed_key k prev) v then rest else k ∷ rest

unfoldable pub dropped_keys : Assoc ObservedKey ℕ → Assoc ObservedKey ℕ → List ObservedKey
unfolding get
dropped_keys [] next = []
dropped_keys ((k, v) ∷ prev) next =
    let rest = dropped_keys prev next in
    if is_some (get observed_key k next) then rest else k ∷ rest

unfoldable pub keys_of {ℓ} : {K : Type ℓ} {V : Type 0} → List (K × V) → List K
keys_of [] = []
keys_of ((k, v) ∷ m) = k ∷ keys_of m

unfoldable pub diff_outward_keys :
    Option (Assoc ObservedKey ℕ) → Assoc ObservedKey ℕ → List ObservedKey
unfolding changed_keys dropped_keys keys_of
diff_outward_keys none next = keys_of next
diff_outward_keys (some prev) next = changed_keys prev next ++ dropped_keys prev next
