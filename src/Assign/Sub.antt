-- ===== src/Assign/Sub.antt =====
-- The subtype relation, and assignments without a cast (src/resolve/assignability.rs).
use witcherscript_language.Base.{
  ◌≡◌, ◌↔◌, refl, subst, ap, Bool, true, false, Text, if◌then◌else◌, arith, Bool-cases, inl, inr,
}
use witcherscript_language.Types.Ty.{Ty, named, array}
use witcherscript_language.Assign.Equal.{ty_eq, ty_eq→eq, ty_eq_refl}
use witcherscript_language.Assign.Defs.{
  SymbolDb, Assignability, identical, implicit_cast, incompatible, flat_assignability,
  element_assignability, assignability, named_assignability, named_to_primitive, enum_to_int,
  primitive_assignability,
}

abbrev pub is_identical : Assignability → Bool
is_identical identical = true
is_identical _ = false

module _ (db : SymbolDb) where
  pub data Subtype : Ty → Ty → Type 0 where
    same : {t : Ty} → Subtype t t
    inherits : {f t : Text} → db.inherits_from f t ≡ true → Subtype (named f) (named t)
    elements : {f t : Ty} → Subtype f t → Subtype (array f) (array t)

  flat-identical : (f t : Ty) → is_identical (flat_assignability db f t) ≡ true → Subtype f t
  unfolding flat_assignability named_assignability named_to_primitive enum_to_int
      primitive_assignability
  flat-identical (named f) (named t) e = inherits (ground arith)
  flat-identical f t e = absurd (ground arith)

  ty_same : (f t : Ty) (a b : Assignability) → ty_eq f t ≡ true → (if ty_eq f t then a else b) ≡ a
  ty_same f t a b e = rw e refl

  pub assignability_same : (t : Ty) → assignability db t t ≡ identical
  unfolding assignability
  assignability_same (array e) =
      ty_same (array e) (array e) identical (element_assignability (assignability db e e))
        (ty_eq_refl (array e))
  assignability_same t = ty_same t t identical (flat_assignability db t t) (ty_eq_refl t)

  element_lem :
      (a : Assignability) → is_identical (element_assignability a) ≡ true → is_identical a ≡ true
  unfolding element_assignability
  element_lem identical e = refl
  element_lem (implicit_cast k) e = e
  element_lem incompatible e = e

  is_identical_lem : (a : Assignability) → is_identical a ≡ true → a ≡ identical
  is_identical_lem identical e = refl
  is_identical_lem (implicit_cast k) e = cc
  is_identical_lem incompatible e = cc

  either :
      (f t : Ty) (b : Assignability)
      → is_identical (if ty_eq f t then identical else b) ≡ true
      → (is_identical b ≡ true → Subtype f t)
      → Subtype f t
  either f t b e h = elim (Bool-cases (ty_eq f t)) [
    | inl q ↦ subst (Subtype f) (ty_eq→eq f t q) same
    | inr q ↦ h (rw q at e)
  ]

  identical→Subtype : (f t : Ty) → is_identical (assignability db f t) ≡ true → Subtype f t
  unfolding assignability
  identical→Subtype (array f) (array t) e =
      either (array f) (array t) (element_assignability (assignability db f t)) e
        (λ h. elements (identical→Subtype f t (element_lem (assignability db f t) h)))
  identical→Subtype f t e = either f t (flat_assignability db f t) e (flat-identical f t)

  Subtype→identical : (f t : Ty) → Subtype f t → assignability db f t ≡ identical
  unfolding assignability named_assignability flat_assignability element_assignability
  Subtype→identical f t same = assignability_same f
  Subtype→identical (named f) (named t) (inherits e) = two (ty_eq (named f) (named t)) (rw e refl)
    where
      two :
          {a : Assignability} (b : Bool) → a ≡ identical → (if b then identical else a) ≡ identical
      two true q = refl
      two false q = q
  Subtype→identical (array f) (array t) (elements s) =
      three (ty_eq (array f) (array t)) (Subtype→identical f t s)
    where
      three :
          {a : Assignability} (b : Bool)
          → a ≡ identical
          → (if b then identical else element_assignability a) ≡ identical
      three true q = refl
      three false q = rw q refl

  -- A type may be assigned without a cast exactly where the slot's type is a supertype of it.
  pub assignability-Subtype :
      (from to : Ty) → (assignability db from to ≡ identical) ↔ Subtype from to
  assignability-Subtype f t =
      (λ e. identical→Subtype f t (ap is_identical e), Subtype→identical f t)
