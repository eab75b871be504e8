-- ===== src/Symbols/Building.antt =====
-- When `build_indexes` returns, and what `push` adds (src/symbols/types.rs).
use witcherscript_language.Base.{
  sym, push_nested, nat_key, text_key, ℕ, zero, suc, ◌+◌, ◌<◌, ◌≤◌, ◌≡◌, refl, ap, ◌∙◌, subst,
  Option, none, some, List, [], ◌∷◌, ◌++◌, Text, Assoc, get_elem?, length, arith, Bool-cases,
  Option-cases, inl, inr,
}
use witcherscript_language.Symbols.Kinds.{is_callable}
use witcherscript_language.Symbols.Symbol.{SymbolId, Symbol}
use witcherscript_language.Symbols.Lookups.{IsFresh, IdsIn}
use witcherscript_language.Symbols.Kept.{each-locals, ordered_by_start, indexed}
use witcherscript_language.Symbols.Sorting.{
  InLocals, InLocals-push_nested, Below-indices, checked_sort-Below, each_value-checked_sort,
}
use witcherscript_language.Symbols.Document.{
  by_id, no_symbols, indices_from, DocumentSymbols, index_locals, build_indexes, callable_from,
  enclosing_callable_id, is_local, push,
}

abbrev pub Contains : List Symbol → Option SymbolId → ℕ → Type 0
Contains every none i = Unit
Contains every (some c) i = c < i

-- every container stands before what it contains
abbrev pub IsTree : List Symbol → Type 0
IsTree every = (i : ℕ) (s : Symbol) → get_elem? every i ≡ some s → Contains every s.container i

abbrev pub Answers : {A : Type 0} → Option A → Type 0
Answers {A = A} o = (a : A) × (o ≡ some a)

callable_from-total :
    (fuel : ℕ) (every : List Symbol) (current : SymbolId)
    → IsTree every
    → current < fuel
    → Answers (callable_from fuel every current)
unfolding callable_from
callable_from-total zero every current t l = elim l [ ]
callable_from-total (suc fuel) every current t l = elim (Option-cases (get_elem? every current)) [
  | inl out ↦ (none, rw out refl)
  | inr (owner, found) ↦ elim (Bool-cases (is_callable owner.kind)) [
    | inl q ↦ (some current, rw (found, q) refl)
    | inr q ↦ elim (Option-cases owner.container) [
      | inl top ↦ (none, rw (found, q, top) refl)
      | inr (outer, up) ↦
          let below : outer < current =
            subst (λ c. Contains every c current) up (t current owner found) in
          let (a, e) = callable_from-total fuel every outer t (omega arith) in
          (a, rw (found, q, up) e)
    ]
  ]
]

abbrev InRange : List Symbol → Option SymbolId → Type 0
InRange every none = Unit
InRange every (some c) = c < length every

pub get_elem?-lt : (ss : List Symbol) (i : ℕ) (s : Symbol) → get_elem? ss i ≡ some s → i < length ss
get_elem?-lt [] i s e = cc
get_elem?-lt (x ∷ ss) zero s e = omega arith
get_elem?-lt (x ∷ ss) (suc i) s e = omega (arith, get_elem?-lt ss i s e)

pub get_elem?-out : (ss : List Symbol) (i : ℕ) → get_elem? ss i ≡ none → length ss ≤ i
get_elem?-out [] i e = omega arith
get_elem?-out (x ∷ ss) zero e = cc
get_elem?-out (x ∷ ss) (suc i) e = omega (arith, get_elem?-out ss i e)

enclosing-total :
    (every : List Symbol) (i : ℕ) (s : Symbol)
    → IsTree every
    → get_elem? every i ≡ some s
    → Answers (enclosing_callable_id every s)
unfolding enclosing_callable_id
enclosing-total every i s t e = elim (Option-cases s.container) [
  | inl top ↦ (none, rw top refl)
  | inr (c, up) ↦
      let below : c < i = subst (λ o. Contains every o i) up (t i s e) in
      let (a, found) =
        callable_from-total (length every + 1) every c t
          (omega (arith, get_elem?-lt every i s e)) in
      (a, rw up found)
]

index_locals-total :
    (every ss : List Symbol) (at : ℕ) (locals : Assoc SymbolId (Assoc Text (List SymbolId)))
    → IsTree every
    → ((i : ℕ) (s : Symbol) → get_elem? ss i ≡ some s → get_elem? every (at + i) ≡ some s)
    → IdsIn every ss
    → InLocals every locals
    → (r : Assoc SymbolId (Assoc Text (List SymbolId))) × (index_locals every ss locals ≡ some r)
      × InLocals every r
unfolding index_locals
index_locals-total every [] at locals t h k m = (locals, refl, m)
index_locals-total every (s ∷ ss) at locals t h (k, ks) m =
    let further : (i : ℕ) (s' : Symbol)
        → get_elem? ss i ≡ some s'
        → get_elem? every (at + 1 + i) ≡ some s' =
      λ i s' e. ap (get_elem? every) (regroup at i) ∙ h (suc i) s' e in
    let (skipped, e, kept) = index_locals-total every ss (at + 1) locals t further ks m in
    let (found, q) = enclosing-total every (at + 0) s t (h 0 s refl) in
    elim (Bool-cases (is_local s.kind)) [
      | inl l ↦ elim (Option-cases found) [
        | inl out ↦ (skipped, rw (l, q, out) e, kept)
        | inr (function, in_it) ↦
            let (pushed, e', kept') =
              index_locals-total every ss (at + 1)
                (push_nested nat_key text_key function s.name s.id locals) t further ks
                (InLocals-push_nested every function s.id s.name locals
                  (get_elem?-lt every s.id s k) m) in
            (pushed, rw (l, q, in_it) e', kept')
      ]
      | inr l ↦ (skipped, rw l e, kept)
    ]
  where
    regroup : (a i : ℕ) → a + 1 + i ≡ a + suc i
    regroup a i = omega arith

-- In a document whose symbols have been pushed and whose indices have not been built, if every
-- container stands before what it contains, `build_indexes` ends and returns: no key that it sorts
-- by is taken of an id out of range.
pub build_indexes-total :
    (self : DocumentSymbols)
    → IsFresh self
    → IsTree self.symbols
    → (built : DocumentSymbols) × (build_indexes self ≡ some built)
unfolding build_indexes
build_indexes-total self fresh t =
    let ordered =
      checked_sort-Below self.symbols (λ s. s.byte_range.start)
        (indices_from 0 (length self.symbols))
        (Below-indices (length self.symbols) 0 (length self.symbols) (omega arith)) in
    let none_yet : (indexed self).locals_in_function ≡ [] =
      each-locals self.symbols (ordered_by_start self) ∙ fresh.no_locals in
    let (locals, e, kept) =
      index_locals-total self.symbols self.symbols 0 (indexed self).locals_in_function t
        (λ i s q. ap (get_elem? self.symbols) (zero_add i) ∙ q) fresh.ids_match
        (subst (InLocals self.symbols) (sym none_yet) tt) in
    let (sorted, q) =
      each_value-checked_sort self.symbols (λ s. s.selection_byte_range.start) locals kept in
    (record (indexed self) { locals_in_function = sorted }, rw (ordered, e, q) refl)
  where
    zero_add : (i : ℕ) → 0 + i ≡ i
    zero_add i = omega arith

get_elem?-append_left :
    (ss : List Symbol) (x : Symbol) (i : ℕ) (s : Symbol)
    → get_elem? ss i ≡ some s
    → get_elem? (ss ++ x ∷ []) i ≡ some s
get_elem?-append_left [] x i s e = cc
get_elem?-append_left (y ∷ ss) x zero s e = e
get_elem?-append_left (y ∷ ss) x (suc i) s e = get_elem?-append_left ss x i s e

get_elem?-append_last :
    (ss : List Symbol) (x : Symbol) → get_elem? (ss ++ x ∷ []) (length ss) ≡ some x
get_elem?-append_last [] x = refl
get_elem?-append_last (y ∷ ss) x = get_elem?-append_last ss x

IdsIn-append :
    (every ss : List Symbol) (x : Symbol)
    → IdsIn every ss
    → get_elem? (every ++ x ∷ []) x.id ≡ some x
    → IdsIn (every ++ x ∷ []) (ss ++ x ∷ [])
IdsIn-append every [] x h e = (e, tt)
IdsIn-append every (s ∷ ss) x (h, k) e =
    (get_elem?-append_left every x s.id s h, IdsIn-append every ss x k e)

-- Pushing a symbol keeps a document fresh: the id that `push`
-- gives is the symbol's index.
pub push-IsFresh :
    (symbol : Symbol) (self : DocumentSymbols)
    → IsFresh self
    → IsFresh (push symbol self).0
      × (by_id (push symbol self).0 (push symbol self).1
          ≡ some (record symbol { id = (push symbol self).1 }))
unfolding push by_id
push-IsFresh symbol self h =
    let x = record symbol { id = length self.symbols } in
    (
      record {
        ids_match =
            IdsIn-append self.symbols self.symbols x h.ids_match
              (get_elem?-append_last self.symbols x);
        no_top_level = h.no_top_level;
        no_types = h.no_types;
        no_members = h.no_members;
        no_locals = h.no_locals;
      },
      get_elem?-append_last self.symbols x,
    )

pub no_symbols-IsFresh : IsFresh no_symbols
no_symbols-IsFresh = record {
  ids_match = tt;
  no_top_level = refl;
  no_types = refl;
  no_members = refl;
  no_locals = refl;
}
