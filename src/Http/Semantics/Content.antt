-- ===== src/Http/Semantics/Content.antt =====
-- What an accepted content range says.
use oklib.Common.{
  ltb, ◌==◌, Bool-cases, Option-cases, length, take, drop, Bytes, codes, ℕ, ◌+◌, ◌^◌, ◌≤◌, ◌<◌, ◌≡◌,
  subst, inl, inr, true, false, not, ◌||◌, Option, none, some, arith,
}
use oklib.Http.Text.{equal, find, trim_ows}
use oklib.Http.Numbers.{parse_decimal_u64}
use oklib.Http.Semantics.{
  parse_length_or_star, fits_length, content_positions, content_range_rest,
  parse_content_range_header, ContentRange,
}
use oklib.Http.Semantics.Ranges.{Accepted, parse_decimal_bound}

-- A content range that is accepted.
pub data IsContentRange : ContentRange → Type 0 where
  unsatisfied_of :
      {unit : Bytes} {length : Option ℕ}
      → IsContentRange (record {
        unit = unit;
        unsatisfied = true;
        first = none;
        last = none;
        complete_length = length;
      })
  part_of :
      {unit : Bytes} {a b n : ℕ}
      → a ≤ b
      → b < n
      → IsContentRange (record {
        unit = unit;
        unsatisfied = false;
        first = some a;
        last = some b;
        complete_length = some n;
      })
  part_of_unknown :
      {unit : Bytes} {a b : ℕ}
      → a ≤ b
      → b < 2 ^ 64
      → IsContentRange (record {
        unit = unit;
        unsatisfied = false;
        first = some a;
        last = some b;
        complete_length = none;
      })

within_length :
    (unit : Bytes) (a b : ℕ) (length : Option ℕ)
    → b < 2 ^ 64
    → (ltb b a || not (fits_length b length)) ≡ false
    → IsContentRange (record {
      unit = unit;
      unsatisfied = false;
      first = some a;
      last = some b;
      complete_length = length;
    })
within_length unit a b none h e = part_of_unknown (ground arith) h
within_length unit a b (some n) h e = part_of (ground arith) (ground arith)

positions-IsContentRange :
    (unit range_part : Bytes) (length : Option ℕ)
    → Accepted IsContentRange (content_positions unit range_part length)
unfolding content_positions
positions-IsContentRange unit s length = elim (Option-cases (find b'-' s)) [
  | inl e ↦ rw (e, content_positions) tt
  | inr (i, e) ↦ elim (Option-cases (parse_decimal_u64 (take i s))) [
    | inl p ↦ rw (e, p, content_positions) tt
    | inr (a, p) ↦ elim (Option-cases (parse_decimal_u64 (drop (i + 1) s))) [
      | inl q ↦ rw (e, p, q, content_positions) tt
      | inr (b, q) ↦ elim (Bool-cases (ltb b a || not (fits_length b length))) [
        | inl k ↦ rw (e, p, q, k, content_positions) tt
        | inr k ↦
            rw (e, p, q, k, content_positions)
              (within_length unit a b length
                (subst (Accepted (λ n. n < 2 ^ 64)) q (parse_decimal_bound (drop (i + 1) s))) k)
      ]
    ]
  ]
]

content_rest-IsContentRange :
    (unit rest : Bytes) → Accepted IsContentRange (content_range_rest unit rest)
unfolding content_range_rest
content_rest-IsContentRange unit s = elim (Option-cases (find b'/' s)) [
  | inl e ↦ rw (e, content_range_rest) tt
  | inr (i, e) ↦ elim (Option-cases (parse_length_or_star (trim_ows (drop (i + 1) s)))) [
    | inl p ↦ rw (e, p, content_range_rest) tt
    | inr (length, p) ↦ elim (Bool-cases (equal (trim_ows (take i s)) (codes "*"))) [
      | inl k ↦ rw (e, p, k, content_range_rest) unsatisfied_of
      | inr k ↦
          rw (e, p, k, content_range_rest)
            (positions-IsContentRange unit (trim_ows (take i s)) length)
    ]
  ]
]

-- A content range that is accepted is one that could not be satisfied, without positions, or it
-- goes from a position to one that is not before it, and that lies within the complete length where
-- that is known, and within 64 bits where it is not.
pub parse_content_range_header-IsContentRange :
    (value : Bytes) (r : ContentRange)
    → parse_content_range_header value ≡ some r
    → IsContentRange r
unfolding parse_content_range_header
parse_content_range_header-IsContentRange value r h = elim (Option-cases (find b' ' value)) [
  | inl e ↦ absurd (ground (arith, e))
  | inr (i, e) ↦ subst (Accepted IsContentRange) h (elim (Bool-cases (i == 0)) [
    | inl k ↦ rw (e, k, parse_content_range_header) tt
    | inr k ↦
        rw (e, k, parse_content_range_header)
          (content_rest-IsContentRange (take i value) (trim_ows (drop (i + 1) value)))
  ])
]
