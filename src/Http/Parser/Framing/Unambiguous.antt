-- ===== src/Http/Parser/Framing/Unambiguous.antt =====
-- `finish_headers`: which framing fields are accepted. A message has one end, or it is refused.
use oklib.Common.{
  Option-cases, All, Bytes, codes, ℕ, ◌≡◌, refl, sym, ap, subst, ◌∙◌, ◌↔◌, inl, inr, Bool, true,
  false, Option, none, some, List, [], ◌∷◌, arith,
}
use oklib.Http.Parser.Framing.Fields.{
  parts_of, split_all-values, AreNumbers, parse_all_iff, codings_of_unique, codings_of-AreCodings,
  EndsChunked, ends_chunked_iff, AreCodings,
}
use oklib.Http.Headers.{HttpHeaders}
use oklib.Http.Parser.Framing.{
  parse_all, content_lengths, agree_with, codings_of, transfer_codings, ends_chunked, transfer_of,
  is_chunked_transfer, framing, absent, chunked_last,
}

-- The length that all of the numbers are, if there are any.
abbrev pub IsAgreed : Option ℕ → List ℕ → Type 0
IsAgreed len [] = len ≡ none
IsAgreed len (n ∷ ns) = (len ≡ some n) × All (λ k. k ≡ n) ns

-- The two ways in which the fields may say where the message ends: by chunks, with no length; or
-- without a transfer coding, with lengths that are all the same, if there are any.
abbrev pub IsFramed : HttpHeaders → Option ℕ → Bool → Type 0
IsFramed hs len true =
    (parts_of (codes "Content-Length") hs ≡ [])
    × (len ≡ none)
    × (cs : List Bytes) × AreCodings (parts_of (codes "Transfer-Encoding") hs) cs
    × EndsChunked cs
IsFramed hs len false =
    AreCodings (parts_of (codes "Transfer-Encoding") hs) []
    × (ns : List ℕ) × AreNumbers (parts_of (codes "Content-Length") hs) ns
    × IsAgreed len ns

agree_with-known :
    (k : ℕ) (len : Option ℕ) (ns : List ℕ)
    → (agree_with (some k) ns ≡ some len) ↔ ((len ≡ some k) × All (λ n. n ≡ k) ns)
unfolding agree_with
agree_with-known k len [] = (λ h. (ground arith, tt), λ h. ground arith)
agree_with-known k len (n ∷ ns) = (
  λ h. ground (arith, (agree_with-known k len ns).0),
  λ h. ground (arith, (agree_with-known k len ns).1),
)

agree_with_iff : (len : Option ℕ) (ns : List ℕ) → (agree_with none ns ≡ some len) ↔ IsAgreed len ns
unfolding agree_with
agree_with_iff len [] = (λ h. ground arith, λ h. ground arith)
agree_with_iff len (n ∷ ns) = agree_with-known n len ns

no_lengths : (ns : List ℕ) → agree_with none ns ≡ some none → ns ≡ []
no_lengths [] h = refl
no_lengths (n ∷ ns) h = absurd (ground (arith, agree_with_iff none (n ∷ ns)))

-- The reading of the codings, by their list.
transfer_of_iff :
    (cs : List Bytes)
    → ((transfer_of cs ≡ absent) ↔ (cs ≡ []))
      × ((transfer_of cs ≡ chunked_last) ↔ (ends_chunked cs ≡ true))
unfolding transfer_of ends_chunked
transfer_of_iff [] = ((λ _. refl, λ _. refl), (λ h. ground arith, λ h. ground arith))
transfer_of_iff (x ∷ xs) =
    ((λ h. ground arith, λ h. ground arith), (λ h. ground arith, λ h. ground arith))

-- The same by what the code reads off the fields.
abbrev Reads : HttpHeaders → Option ℕ → Bool → Type 0
Reads hs len true =
    (content_lengths hs ≡ some []) × (len ≡ none) × (ends_chunked (transfer_codings hs) ≡ true)
Reads hs len false =
    (transfer_codings hs ≡ []) × (ns : List ℕ) × (content_lengths hs ≡ some ns) × IsAgreed len ns

framing-Reads :
    (hs : HttpHeaders) (len : Option ℕ) (chunked : Bool)
    → (framing hs ≡ some (len, chunked)) ↔ Reads hs len chunked
unfolding framing is_chunked_transfer
framing-Reads hs len true = (
  λ h. elim (Option-cases (content_lengths hs)) [
    | inl e ↦ absurd (ground (arith, e))
    | inr (ns, e) ↦ ground (arith, e, transfer_of_iff (transfer_codings hs), no_lengths ns)
  ],
  λ (e, l, codings).
      ground (arith, e, transfer_of_iff (transfer_codings hs), agree_with_iff none []),
)
framing-Reads hs len false = (
  λ h. elim (Option-cases (content_lengths hs)) [
    | inl e ↦ absurd (ground (arith, e))
    | inr (ns, e) ↦ (
      ground (arith, e, transfer_of_iff (transfer_codings hs)),
      ns,
      e,
      ground (arith, e, agree_with_iff len ns),
    )
  ],
  λ (codings, ns, e, agreed).
      ground (arith, e, transfer_of_iff (transfer_codings hs), agree_with_iff len ns),
)

no_numbers : (parts : List Bytes) → AreNumbers parts [] → parts ≡ []
no_numbers [] h = refl
no_numbers (part ∷ parts) h = absurd h

content_lengths_lem :
    (hs : HttpHeaders) → content_lengths hs ≡ parse_all (parts_of (codes "Content-Length") hs)
unfolding content_lengths
content_lengths_lem hs = ap parse_all (split_all-values (codes "Content-Length") hs)

transfer_codings_lem :
    (hs : HttpHeaders) → transfer_codings hs ≡ codings_of (parts_of (codes "Transfer-Encoding") hs)
unfolding transfer_codings
transfer_codings_lem hs = ap codings_of (split_all-values (codes "Transfer-Encoding") hs)

Reads-IsFramed :
    (hs : HttpHeaders) (len : Option ℕ) (chunked : Bool)
    → Reads hs len chunked ↔ IsFramed hs len chunked
Reads-IsFramed hs len true =
    let lengths = parts_of (codes "Content-Length") hs in
    let codings = parts_of (codes "Transfer-Encoding") hs in
    rw (content_lengths_lem hs, transfer_codings_lem hs)
      (
        λ (none_given, l, h). (
          no_numbers lengths ((parse_all_iff lengths []).0 none_given),
          l,
          codings_of codings,
          codings_of-AreCodings codings,
          (ends_chunked_iff (codings_of codings)).0 h,
        ),
        λ (none_given, l, cs, c, e). (
          (parse_all_iff lengths []).1 (subst (λ p. AreNumbers p []) (sym none_given) tt),
          l,
          ap ends_chunked (codings_of_unique c) ∙ (ends_chunked_iff cs).1 e,
        ),
      )
Reads-IsFramed hs len false =
    let lengths = parts_of (codes "Content-Length") hs in
    let codings = parts_of (codes "Transfer-Encoding") hs in
    rw (content_lengths_lem hs, transfer_codings_lem hs)
      (
        λ (none_given, ns, h, agreed). (
          subst (AreCodings codings) none_given (codings_of-AreCodings codings),
          ns,
          (parse_all_iff lengths ns).0 h,
          agreed,
        ),
        λ (none_given, ns, h, agreed).
            (codings_of_unique none_given, ns, (parse_all_iff lengths ns).1 h, agreed),
      )

-- The parts of the Content-Length and of the Transfer-Encoding fields stand between the commas of
-- all their lines. The fields are accepted exactly when they say in one way where the message ends:
-- by chunks, with no part in Content-Length, and with codings of which the last is `chunked`; or
-- with no coding, where every part of Content-Length is a decimal number of 64 bits, all of them the
-- same, or there is none. Everything else is refused.
pub framing_iff :
    (hs : HttpHeaders) (len : Option ℕ) (chunked : Bool)
    → (framing hs ≡ some (len, chunked)) ↔ IsFramed hs len chunked
framing_iff hs len chunked =
    let reads = framing-Reads hs len chunked in
    let framed = Reads-IsFramed hs len chunked in
    (λ h. framed.0 (reads.0 h), λ h. reads.1 (framed.1 h))
