-- ===== src/EditPlan/Order.antt =====
-- The order in which `apply_splices` takes splices that are listed by ascending start.
use witcherscript_language.Base.{
  ◌<◌, ◌≡◌, refl, ap, ◌∙◌, List, [], ◌∷◌, ◌++◌, Option, none, some, Text, ◌>>=◌, All, arith,
}
use witcherscript_language.EditPlan.Defs.{
  Splice, insert_ordered, ordered, apply_each, replace_range,
}

abbrev pub Behind : Splice → List Splice → Type 0
Behind s rest = All (λ t. s.range.start < t.range.start) rest

-- the starts ascend strictly
abbrev pub Ascending : List Splice → Type 0
Ascending [] = Unit
Ascending (s ∷ rest) = Behind s rest × Ascending rest

-- from the last to the first
abbrev pub backwards : List Splice → List Splice
backwards [] = []
backwards (s ∷ rest) = backwards rest ++ s ∷ []

insert_ordered-last : (s : Splice) (l : List Splice) → Behind s l → insert_ordered s l ≡ l ++ s ∷ []
unfolding insert_ordered
insert_ordered-last s [] h = refl
insert_ordered-last s (t ∷ l) (h, k) = ground (arith, insert_ordered-last s l k)

All-append : (P : Splice → Type 0) (l m : List Splice) → All P l → All P m → All P (l ++ m)
All-append P [] m h k = k
All-append P (x ∷ l) m (p, h) k = (p, All-append P l m h k)

Behind-backwards : (s : Splice) (l : List Splice) → Behind s l → Behind s (backwards l)
Behind-backwards s [] h = tt
Behind-backwards s (t ∷ l) (h, k) =
    All-append (λ t. s.range.start < t.range.start) (backwards l) (t ∷ []) (Behind-backwards s l k)
      (h, tt)

pub ordered-backwards : (l : List Splice) → Ascending l → ordered l ≡ backwards l
unfolding ordered
ordered-backwards [] h = refl
ordered-backwards (s ∷ l) (h, k) =
    ap (insert_ordered s) (ordered-backwards l k)
    ∙ insert_ordered-last s (backwards l) (Behind-backwards s l h)

bind_some : (o : Option Text) → (o >>= λ x. some x) ≡ o
bind_some none = refl
bind_some (some x) = refl

bind_assoc :
    (o : Option Text) (f g h : Text → Option Text)
    → ((x : Text) → f x ≡ (g x >>= h))
    → (o >>= f) ≡ ((o >>= g) >>= h)
bind_assoc none f g h e = refl
bind_assoc (some x) f g h e = e x

pub apply_each-append :
    (l : List Splice) (s : Splice) (t : Text)
    → apply_each (l ++ s ∷ []) t ≡ (apply_each l t >>= λ u. replace_range u s.range s.text)
unfolding apply_each
apply_each-append [] s t = bind_some (replace_range t s.range s.text)
apply_each-append (r ∷ l) s t =
    bind_assoc (replace_range t r.range r.text) (apply_each (l ++ s ∷ [])) (apply_each l)
      (λ u. replace_range u s.range s.text) (apply_each-append l s)
