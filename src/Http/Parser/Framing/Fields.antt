-- ===== src/Http/Parser/Framing/Fields.antt =====
-- The two framing fields, part by part: `content_lengths`, and the codings of
-- `is_chunked_transfer`.
use oklib.Common.{
  ◌==◌, if◌then◌else◌, Bool-cases, Option-cases, length, take-append_exact, Bytes, codes, ℕ, ◌≡◌,
  refl, sym, ap, subst, ◌∙◌, ◌↔◌, ◌⊎◌, inl, inr, true, false, some, List, [], ◌∷◌, ◌++◌, arith,
}
use oklib.Http.Text.{lowercase, equal, is_empty, trim_back, trim_ows, split_commas}
use oklib.Http.Text.Split.{Lacks, find-append, find-Lacks, lacks}
use oklib.Http.Numbers.{parse_decimal_u64}
use oklib.Http.Numbers.Decimal.{parse_decimal_u64_iff, IsDecimal}
use oklib.Http.Headers.{HttpHeaders, equals_ignore_case, values}
use oklib.Http.Headers.Lookup.{equals_ignore_case_iff}
use oklib.Http.Parser.Framing.{parse_all, split_all, coding_name, codings_of, ends_chunked}
use oklib.Http.Router.Table.{equal_iff}

-- The parts between the commas of all the lines of a field, whose name may be in any case.
abbrev pub parts_of : Bytes → HttpHeaders → List Bytes
parts_of field [] = []
parts_of field (e ∷ es) =
    if equal (lowercase e.field) (lowercase field)
    then split_commas e.value ++ parts_of field es
    else parts_of field es

same_name : (a b : Bytes) → equals_ignore_case a b ≡ equal (lowercase a) (lowercase b)
same_name a b =
    let names = equals_ignore_case_iff a b in
    let texts = equal_iff (lowercase a) (lowercase b) in
    elim (Bool-cases (equals_ignore_case a b)) [
      | inl h ↦ h ∙ sym (texts.1 (names.0 h))
      | inr h ↦ elim (Bool-cases (equal (lowercase a) (lowercase b))) [
        | inl k ↦ absurd (ground (arith, h, names.1 (texts.0 k)))
        | inr k ↦ h ∙ sym k
      ]
    ]

pub split_all-values :
    (field : Bytes) (hs : HttpHeaders) → split_all (values field hs) ≡ parts_of field hs
unfolding values
split_all-values field [] = refl
split_all-values field (e ∷ es) =
    let same = same_name e.field field in
    elim (Bool-cases (equals_ignore_case e.field field)) [
      | inl h ↦
          rw (h, sym same ∙ h, values)
            (ap (◌++◌ (split_commas e.value)) (split_all-values field es))
      | inr h ↦ rw (h, sym same ∙ h, values) (split_all-values field es)
    ]

-- The numbers that the parts are, one for each.
abbrev pub AreNumbers : List Bytes → List ℕ → Type 0
AreNumbers [] [] = Unit
AreNumbers [] (n ∷ ns) = ⊥
AreNumbers (part ∷ parts) [] = ⊥
AreNumbers (part ∷ parts) (n ∷ ns) = IsDecimal (trim_ows part) n × AreNumbers parts ns

pub parse_all_iff :
    (parts : List Bytes) (ns : List ℕ) → (parse_all parts ≡ some ns) ↔ AreNumbers parts ns
unfolding parse_all
parse_all_iff [] [] = (λ h. tt, λ h. refl)
parse_all_iff [] (n ∷ ns) = (λ h. absurd (ground arith), λ h. absurd h)
parse_all_iff (part ∷ parts) [] = (
  λ h. elim (Option-cases (parse_decimal_u64 part)) [
    | inl e ↦ absurd (ground (arith, e, h))
    | inr (m, e) ↦ elim (Option-cases (parse_all parts)) [
      | inl k ↦ absurd (ground (arith, e, k, h))
      | inr (ms, k) ↦ absurd (ground (arith, e, k, h))
    ]
  ],
  λ h. absurd h,
)
parse_all_iff (part ∷ parts) (n ∷ ns) = (
  λ h. elim (Option-cases (parse_decimal_u64 part)) [
    | inl e ↦ absurd (ground (arith, e, h))
    | inr (m, e) ↦ elim (Option-cases (parse_all parts)) [
      | inl k ↦ absurd (ground (arith, e, k, h))
      | inr (ms, k) ↦ (
        (parse_decimal_u64_iff part n).0 (ground (arith, e, k, h)),
        (parse_all_iff parts ns).0 (ground (arith, e, k, h)),
      )
    ]
  ],
  λ (d, ds). rw ((parse_decimal_u64_iff part n).1 d, parse_all, (parse_all_iff parts ns).1 ds) refl,
)

-- A text has no such character, or a first one.
find_cases :
    (c : ℕ) (s : Bytes)
    → Lacks c s ⊎ ((front : Bytes) × (rest : Bytes) × (s ≡ front ++ c ∷ rest) × Lacks c front)
find_cases c [] = inl tt
find_cases c (x ∷ xs) = elim (Bool-cases (x == c)) [
  | inl e ↦ inr ([], xs, ap (λ y. y ∷ xs) (ground (arith, e)), tt)
  | inr e ↦ elim (find_cases c xs) [
    | inl lacks ↦ inl (λ k. absurd (ground (arith, e, k)), lacks)
    | inr (front, rest, eq, lacks) ↦
        inr (x ∷ front, rest, ap (◌∷◌ x) eq, (λ k. absurd (ground (arith, e, k)), lacks))
  ]
]

-- The name of a coding: its letters in lower case, and what stands in front of the first semicolon,
-- if there is one, without the blanks behind it.
pub data IsNameOf (part : Bytes) : Bytes → Type 0 where
  bare : Lacks b';' (lowercase part) → IsNameOf part (lowercase part)
  in_front_of :
      (front parameters : Bytes)
      → lowercase part ≡ front ++ b';' ∷ parameters
      → Lacks b';' front
      → IsNameOf part (trim_back front)

coding_name_bare : (part : Bytes) → Lacks b';' (lowercase part) → coding_name part ≡ lowercase part
unfolding coding_name
coding_name_bare part h = rw (find-Lacks b';' (lowercase part) h, coding_name) refl

coding_name_front :
    (part front parameters : Bytes)
    → lowercase part ≡ front ++ b';' ∷ parameters
    → Lacks b';' front
    → coding_name part ≡ trim_back front
unfolding coding_name
coding_name_front part front parameters e h =
    rw (e, coding_name, find-append b';' front parameters h, e)
      (ap trim_back (take-append_exact (length front) front (b';' ∷ parameters) refl))

coding_name_unique : (part name : Bytes) → IsNameOf part name → coding_name part ≡ name
coding_name_unique part _ (bare h) = coding_name_bare part h
coding_name_unique part _ (in_front_of front parameters e h) =
    coding_name_front part front parameters e h

coding_name-IsNameOf : (part : Bytes) → IsNameOf part (coding_name part)
coding_name-IsNameOf part = elim (find_cases b';' (lowercase part)) [
  | inl h ↦ subst (IsNameOf part) (sym (coding_name_bare part h)) (bare h)
  | inr (front, parameters, e, h) ↦
      subst (IsNameOf part) (sym (coding_name_front part front parameters e h))
        (in_front_of front parameters e h)
]

-- The codings that the parts name; a part may name none.
pub data AreCodings : List Bytes → List Bytes → Type 0 where
  no_parts : AreCodings [] []
  blank :
      {part : Bytes} {parts cs : List Bytes}
      → IsNameOf part []
      → AreCodings parts cs
      → AreCodings (part ∷ parts) cs
  named :
      {part c : Bytes} {parts cs : List Bytes}
      → is_empty c ≡ false
      → IsNameOf part c
      → AreCodings parts cs
      → AreCodings (part ∷ parts) (c ∷ cs)

pub codings_of_unique : {parts cs : List Bytes} → AreCodings parts cs → codings_of parts ≡ cs
unfolding codings_of is_empty
codings_of_unique no_parts = refl
codings_of_unique (blank {part = part} name rest) =
    rw (coding_name_unique part [] name, codings_of_unique rest) refl
codings_of_unique (named {part = part} {c = c} h name rest) =
    rw (coding_name_unique part c name, codings_of_unique rest, h) refl

nothing_in : (c : Bytes) → is_empty c ≡ true → c ≡ []
unfolding is_empty
nothing_in [] h = refl
nothing_in (x ∷ xs) h = absurd (ground arith)

pub codings_of-AreCodings : (parts : List Bytes) → AreCodings parts (codings_of parts)
unfolding codings_of
codings_of-AreCodings [] = no_parts
codings_of-AreCodings (part ∷ parts) = elim (Bool-cases (is_empty (coding_name part))) [
  | inl e ↦
      rw (e, codings_of)
        (blank (subst (IsNameOf part) (nothing_in (coding_name part) e) (coding_name-IsNameOf part))
          (codings_of-AreCodings parts))
  | inr e ↦ rw (e, codings_of) (named e (coding_name-IsNameOf part) (codings_of-AreCodings parts))
]

-- The last coding is `chunked`.
abbrev pub EndsChunked : List Bytes → Type 0
EndsChunked cs = (front : List Bytes) × (cs ≡ front ++ (codes "chunked" ∷ []))

ends_chunked-append : (front : List Bytes) → ends_chunked (front ++ (codes "chunked" ∷ [])) ≡ true
unfolding ends_chunked
ends_chunked-append [] = (equal_iff (codes "chunked") (codes "chunked")).1 refl
ends_chunked-append (c ∷ []) = (equal_iff (codes "chunked") (codes "chunked")).1 refl
ends_chunked-append (c ∷ d ∷ cs) = ends_chunked-append (d ∷ cs)

ends_chunked_only : (cs : List Bytes) → ends_chunked cs ≡ true → EndsChunked cs
unfolding ends_chunked
ends_chunked_only [] h = absurd (ground arith)
ends_chunked_only (c ∷ []) h = ([], ap (λ x. x ∷ []) ((equal_iff c (codes "chunked")).0 h))
ends_chunked_only (c ∷ d ∷ cs) h =
    let (front, e) = ends_chunked_only (d ∷ cs) h in (c ∷ front, ap (◌∷◌ c) e)

pub ends_chunked_iff : (cs : List Bytes) → (ends_chunked cs ≡ true) ↔ EndsChunked cs
ends_chunked_iff cs =
    (ends_chunked_only cs, λ (front, e). ap ends_chunked e ∙ ends_chunked-append front)
