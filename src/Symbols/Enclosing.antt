-- ===== src/Symbols/Enclosing.antt =====
-- `enclosing_symbol_at` in a document whose indices are built (src/symbols/types.rs).
use witcherscript_language.Base.{
  ◌-◌, ◌≢◌, ==→≢, any, leb, ℕ, zero, suc, ◌+◌, ◌<◌, ◌≤◌, ◌==◌, ◌≡◌, refl, true, ◌&&◌, Option, none,
  some, List, [], ◌∷◌, get_elem?, length, arith, Bool-cases, Option-cases, inl, inr,
}
use witcherscript_language.Symbols.Kinds.{SymbolKind, kind_eq}
use witcherscript_language.Symbols.Symbol.{SymbolId, Symbol}
use witcherscript_language.Symbols.Kept.{build_indexes-Kept, ordered_by_start}
use witcherscript_language.Symbols.Document.{
  indices_from, starts_up_to, enclosing_symbol_at, key_at, DocumentSymbols, build_indexes,
  enclosing_from,
}
use witcherscript_language.Symbols.Sorting.{Below, Below-sort, Below-indices}
use witcherscript_language.Symbols.Building.{Contains, IsTree, get_elem?-out}

-- a symbol that reaches as far as the offset and is of one of the kinds
abbrev pub Covers : ℕ → List SymbolKind → Option Symbol → Type 0
Covers byte kinds none = Unit
Covers byte kinds (some s) = (leb byte s.byte_range.end && any (λ k. kind_eq k s.kind) kinds) ≡ true

abbrev pub Reaches : ℕ → List SymbolKind → Option (Option Symbol) → Type 0
Reaches byte kinds o = (r : Option Symbol) × (o ≡ some r) × Covers byte kinds r

enclosing_from-total :
    (fuel : ℕ) (every : List Symbol) (byte : ℕ) (kinds : List SymbolKind) (cursor : Option SymbolId)
    (bound : ℕ)
    → IsTree every
    → Contains every cursor bound
    → bound ≤ length every
    → bound + 1 < fuel
    → Reaches byte kinds (enclosing_from fuel every byte kinds cursor)
unfolding enclosing_from
enclosing_from-total zero every byte kinds cursor bound t c b l = elim l [ ]
enclosing_from-total (suc fuel) every byte kinds none bound t c b l = (none, refl, tt)
enclosing_from-total (suc fuel) every byte kinds (some id) bound t c b l =
    elim (Option-cases (get_elem? every id)) [
      | inl out ↦ absurd (omega (arith, get_elem?-out every id out))
      | inr (s, found) ↦
          elim (Bool-cases (leb byte s.byte_range.end && any (λ k. kind_eq k s.kind) kinds)) [
            | inl q ↦ (some s, rw (found, q) refl, q)
            | inr q ↦
                let (a, e, r) =
                  enclosing_from-total fuel every byte kinds s.container id t (t id s found)
                    (omega arith) (omega arith) in
                (a, rw (found, q) e, r)
          ]
    ]

starts_up_to-total :
    (every : List Symbol) (l : List ℕ) (byte : ℕ)
    → Below (length every) l
    → (n : ℕ) × (starts_up_to every l byte ≡ some n) × (n ≤ length l)
unfolding starts_up_to
starts_up_to-total every [] byte h = (0, refl, omega arith)
starts_up_to-total every (i ∷ l) byte (h, k) =
    let (n, e, b) = starts_up_to-total every l byte k in
    elim (Option-cases (get_elem? every i)) [
      | inl out ↦ absurd (omega (arith, get_elem?-out every i out))
      | inr (s, found) ↦ elim (Bool-cases (leb s.byte_range.start byte)) [
        | inl q ↦ (suc n, rw (found, q, e) refl, omega arith)
        | inr q ↦ (0, rw (found, q) refl, omega arith)
      ]
    ]

Below-get :
    (n : ℕ) (l : List ℕ) (i : ℕ)
    → Below n l
    → i < length l
    → (x : ℕ) × (get_elem? l i ≡ some x) × (x < n)
Below-get n [] i h b = absurd (omega arith)
Below-get n (x ∷ l) zero (h, k) b = (x, refl, h)
Below-get n (x ∷ l) (suc i) (h, k) b = Below-get n l i k (omega arith)

-- In a built document in which every container stands before what it contains, the search for the
-- symbol around an offset ends without a panic, and what it returns is of one of the kinds and
-- reaches as far as the offset.
pub enclosing_symbol_at-total :
    (self built : DocumentSymbols) (byte : ℕ) (kinds : List SymbolKind)
    → IsTree self.symbols
    → build_indexes self ≡ some built
    → Reaches byte kinds (enclosing_symbol_at built byte kinds)
unfolding enclosing_symbol_at
enclosing_symbol_at-total self built byte kinds t e =
    let kept = build_indexes-Kept self built e in
    let by_start = (ordered_by_start self).by_start_byte in
    let in_range : Below (length self.symbols) by_start =
      Below-sort (length self.symbols) (key_at self.symbols (λ s. s.byte_range.start))
        (indices_from 0 (length self.symbols))
        (Below-indices (length self.symbols) 0 (length self.symbols) (omega arith)) in
    let (upper, found, small) = starts_up_to-total self.symbols by_start byte in_range in
    elim (Bool-cases (upper == 0)) [
      | inl q ↦ (none, rw (kept.symbols, kept.by_start, found, q) refl, tt)
      | inr q ↦
          let above : upper ≢ 0 = ==→≢ upper 0 q in
          let (last, at_last, in_it) =
            Below-get (length self.symbols) by_start (upper - 1) in_range (omega arith) in
          let (r, walk, covers) =
            enclosing_from-total (length self.symbols + 2) self.symbols byte kinds (some last)
              (length self.symbols) t in_it (omega arith) (omega arith) in
          (r, rw (kept.symbols, kept.by_start, found, q, at_last) walk, covers)
    ]
