-- ===== src/Http/Semantics/Ranges.antt =====
-- What an accepted range says, and that written ranges are read back.
use oklib.Common.{
  ltb, ◌==◌, if◌then◌else◌, Bool-cases, Option-cases, length, take, drop, All, Bytes, ℕ, ◌+◌, ◌^◌,
  ◌≤◌, ◌<◌, ◌≡◌, subst, inl, inr, false, ◌||◌, Option, none, some, List, [], ◌∷◌, arith,
}
use oklib.Http.Text.{is_empty, find, trim_ows, split_commas}
use oklib.Http.Numbers.{from_chars_u64, parse_decimal_u64}
use oklib.Http.Semantics.{
  range_from, range_parts, range_spec, range_specs, range_set, parse_range_header, ByteRangeSpec,
  RangeSet,
}

-- A range of bytes is from a position to one that is not before it, or from a position on, or a
-- number of last bytes that is not 0; the numbers are of 64 bits.
pub data IsRange : ByteRangeSpec → Type 0 where
  from_to :
      {a b : ℕ}
      → a ≤ b
      → b < 2 ^ 64
      → IsRange (record { first = some a; last = some b; suffix_length = none })
  from_on :
      {a : ℕ} → a < 2 ^ 64 → IsRange (record { first = some a; last = none; suffix_length = none })
  last_bytes :
      {n : ℕ}
      → 1 ≤ n
      → n < 2 ^ 64
      → IsRange (record { first = none; last = none; suffix_length = some n })

-- What is accepted.
abbrev pub Accepted {ℓ} : {A : Type 0} → (A → Type ℓ) → Option A → Type ℓ
Accepted P none = Unit
Accepted P (some a) = P a

pub parse_decimal_bound : (s : Bytes) → Accepted (λ n. n < 2 ^ 64) (parse_decimal_u64 s)
unfolding parse_decimal_u64 from_chars_u64
parse_decimal_bound s = ground arith

range_from-IsRange : (a : ℕ) (s : Bytes) → a < 2 ^ 64 → Accepted IsRange (range_from a s)
unfolding range_from
range_from-IsRange a s h = elim (Bool-cases (is_empty s)) [
  | inl e ↦ rw (e, range_from) (from_on h)
  | inr e ↦ elim (Option-cases (parse_decimal_u64 s)) [
    | inl p ↦ rw (e, p, range_from) tt
    | inr (b, p) ↦ elim (Bool-cases (ltb b a)) [
      | inl l ↦ rw (e, p, l, range_from) tt
      | inr l ↦
          rw (e, p, l, range_from)
            (from_to (ground arith) (subst (Accepted (λ n. n < 2 ^ 64)) p (parse_decimal_bound s)))
    ]
  ]
]

suffix-IsRange :
    (n : ℕ)
    → n < 2 ^ 64
    → Accepted IsRange (
        if n == 0
        then none
        else some (record { first = none; last = none; suffix_length = some n }))
suffix-IsRange n h = elim (Bool-cases (n == 0)) [
  | inl e ↦ rw e tt
  | inr e ↦ rw e (last_bytes (ground arith) h)
]

range_parts-IsRange : (front behind : Bytes) → Accepted IsRange (range_parts front behind)
unfolding range_parts
range_parts-IsRange front behind = elim (Bool-cases (is_empty front)) [
  | inl k ↦ elim (Option-cases (parse_decimal_u64 behind)) [
    | inl p ↦ rw (k, p, range_parts) tt
    | inr (n, p) ↦
        rw (k, p, range_parts)
          (suffix-IsRange n (subst (Accepted (λ n. n < 2 ^ 64)) p (parse_decimal_bound behind)))
  ]
  | inr k ↦ elim (Option-cases (parse_decimal_u64 front)) [
    | inl p ↦ rw (k, p, range_parts) tt
    | inr (a, p) ↦
        rw (k, p, range_parts)
          (range_from-IsRange a behind
            (subst (Accepted (λ n. n < 2 ^ 64)) p (parse_decimal_bound front)))
  ]
]

range_spec-IsRange : (part : Bytes) → Accepted IsRange (range_spec part)
unfolding range_spec
range_spec-IsRange part = elim (Option-cases (find b'-' part)) [
  | inl e ↦ rw (e, range_spec) tt
  | inr (dash, e) ↦
      rw (e, range_spec)
        (range_parts-IsRange (trim_ows (take dash part)) (trim_ows (drop (dash + 1) part)))
]

range_specs-IsRange : (parts : List Bytes) → Accepted (All IsRange) (range_specs parts)
unfolding range_specs
range_specs-IsRange [] = tt
range_specs-IsRange (part ∷ parts) = elim (Option-cases (range_spec part)) [
  | inl e ↦ rw (e, range_specs) tt
  | inr (spec, e) ↦ elim (Option-cases (range_specs parts)) [
    | inl p ↦ rw (e, p, range_specs) tt
    | inr (specs, p) ↦
        rw (e, p, range_specs)
          (
            subst (Accepted IsRange) e (range_spec-IsRange part),
            subst (Accepted (All IsRange)) p (range_specs-IsRange parts),
          )
  ]
]

-- A set of ranges, with one at least.
pub record IsRangeSet (r : RangeSet) : Type 0 where
  pub named : is_empty r.unit ≡ false
  pub some_range : 1 ≤ length r.ranges
  pub each : All IsRange r.ranges

range_set-IsRangeSet :
    (unit : Bytes) (specs : List ByteRangeSpec)
    → is_empty unit ≡ false
    → All IsRange specs
    → Accepted IsRangeSet (range_set unit specs)
unfolding range_set
range_set-IsRangeSet unit [] e h = tt
range_set-IsRangeSet unit (spec ∷ specs) e h = record {
  named = e;
  some_range = omega arith;
  each = h;
}

header-IsRangeSet : (value : Bytes) → Accepted IsRangeSet (parse_range_header value)
unfolding parse_range_header
header-IsRangeSet value = elim (Option-cases (find b'=' value)) [
  | inl e ↦ rw (e, parse_range_header) tt
  | inr (i, e) ↦ elim (Bool-cases (i == 0 || is_empty (trim_ows (take i value)))) [
    | inl k ↦ rw (e, k, parse_range_header) tt
    | inr k ↦ elim (Option-cases (range_specs (split_commas (drop (i + 1) value)))) [
      | inl p ↦ rw (e, k, p, parse_range_header) tt
      | inr (specs, p) ↦
          rw (e, k, p, parse_range_header)
            (range_set-IsRangeSet (trim_ows (take i value)) specs (ground arith) (
              subst (Accepted (All IsRange)) p
                (range_specs-IsRange (split_commas (drop (i + 1) value)))))
    ]
  ]
]

-- A range header that is accepted has a unit that is not empty and one range at least. Each of its
-- ranges is from a position to one that is not before it, or from a position on, or a number of
-- last bytes that is not 0, and the numbers are of 64 bits.
pub parse_range_header-IsRangeSet :
    (value : Bytes) (r : RangeSet) → parse_range_header value ≡ some r → IsRangeSet r
parse_range_header-IsRangeSet value r e = subst (Accepted IsRangeSet) e (header-IsRangeSet value)
