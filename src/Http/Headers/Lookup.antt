-- ===== src/Http/Headers/Lookup.antt =====
-- The headers as a multimap from case-insensitive names: what `add` and `set` do to every lookup.
use oklib.Common.{
  if◌then◌else◌, Bytes, ◌≡◌, refl, ap, ◌∙◌, ◌↔◌, true, false, ◌||◌, [], ◌∷◌, ◌++◌, append-nil,
  arith,
}
use oklib.Http.Text.{lowercase, trim_ows}
use oklib.Http.Headers.{
  HttpHeaders, equals_ignore_case, add, remove_field, set, contains, find_entry, get, values,
}

-- Two names are the same when their lower-case forms are.
pub equals_ignore_case_iff :
    (a b : Bytes) → (equals_ignore_case a b ≡ true) ↔ (lowercase a ≡ lowercase b)
unfolding equals_ignore_case lowercase
equals_ignore_case_iff [] [] = (λ _. refl, λ _. refl)
equals_ignore_case_iff [] (y ∷ ys) = (λ h. cc, λ h. cc)
equals_ignore_case_iff (x ∷ xs) [] = (λ h. cc, λ h. cc)
equals_ignore_case_iff (x ∷ xs) (y ∷ ys) = (
  λ h. ground (arith, (equals_ignore_case_iff xs ys).0),
  λ h. ground (arith, (equals_ignore_case_iff xs ys).1),
)

values-append :
    (field : Bytes) (xs ys : HttpHeaders)
    → values field (xs ++ ys) ≡ values field xs ++ values field ys
unfolding values
values-append field [] ys = refl
values-append field (x ∷ xs) ys = ground (arith, values-append field xs ys)

-- Names that are the same are told apart from the same names.
equals_congr :
    (a b c : Bytes)
    → equals_ignore_case a b ≡ true
    → equals_ignore_case a c ≡ equals_ignore_case b c
unfolding equals_ignore_case
equals_congr [] [] c h = refl
equals_congr [] (y ∷ ys) c h = cc
equals_congr (x ∷ xs) [] c h = cc
equals_congr (x ∷ xs) (y ∷ ys) [] h = refl
equals_congr (x ∷ xs) (y ∷ ys) (z ∷ zs) h = ground (arith, equals_congr xs ys zs)

equals_symm : (a b : Bytes) → equals_ignore_case a b ≡ equals_ignore_case b a
unfolding equals_ignore_case
equals_symm [] [] = refl
equals_symm [] (y ∷ ys) = refl
equals_symm (x ∷ xs) [] = refl
equals_symm (x ∷ xs) (y ∷ ys) = ground (arith, equals_symm xs ys)

values-remove_field :
    (field other : Bytes) (hs : HttpHeaders)
    → values other (remove_field field hs)
      ≡ (if equals_ignore_case field other then [] else values other hs)
unfolding values remove_field
values-remove_field field other [] = ground arith
values-remove_field field other (x ∷ xs) = ground (
  arith,
  values-remove_field field other xs,
  equals_congr x.field field other,
  equals_congr x.field other field,
  equals_symm field other,
)

values-add :
    (field value other : Bytes) (hs : HttpHeaders)
    → values other (add field value hs)
      ≡ values other hs
        ++ (if equals_ignore_case (trim_ows field) other then trim_ows value ∷ [] else [])
unfolding values add
values-add field value other hs =
    values-append other hs (record { field = trim_ows field; value = trim_ows value } ∷ [])
    ∙ ap (◌++◌ (values other hs)) (ground arith)

-- A field is there exactly when it has a value, and `get` gives the first of its values.
get-values :
    (field : Bytes) (hs : HttpHeaders)
    → (get field hs ≡ elim (values field hs) [ [] ↦ [] | v ∷ vs ↦ v ])
      × (contains field hs ≡ elim (values field hs) [ [] ↦ false | v ∷ vs ↦ true ])
unfolding values contains get find_entry
get-values field [] = (refl, refl)
get-values field (x ∷ xs) =
    (ground (arith, (get-values field xs).0), ground (arith, (get-values field xs).1))

-- Setting a field whose name has no blanks round it, in any case, leaves it with the one trimmed
-- value, and leaves every field of another name as it was.
pub values-set :
    (field value other : Bytes) (hs : HttpHeaders)
    → trim_ows field ≡ field
    → values other (set field value hs)
      ≡ (if equals_ignore_case field other then trim_ows value ∷ [] else values other hs)
unfolding set
values-set field value other hs h =
    values-add field value other (remove_field field hs)
    ∙ ground (arith, values-remove_field field other hs, append-nil (values other hs))

-- After a set, `get` and `contains` see the new value under every spelling of the name, and other
-- names see what they saw before.
pub get-set :
    (field value other : Bytes) (hs : HttpHeaders)
    → trim_ows field ≡ field
    → (get other (set field value hs)
        ≡ (if equals_ignore_case field other then trim_ows value else get other hs))
      × (contains other (set field value hs) ≡ equals_ignore_case field other || contains other hs)
get-set field value other hs h = ground (
  arith,
  get-values other (set field value hs),
  get-values other hs,
  values-set field value other hs h,
)
