-- ===== src/Http/Semantics.antt =====
-- src/http/http_semantics.cpp: the methods, the ranges, the entity tags and the dates. Its text
-- helpers are the same text as those of the parser.
pub mod Methods
pub mod Ranges
pub mod Content
pub mod Written
pub mod Tags
pub mod Dates
pub mod Calendar
pub mod Fixdate
mod Tests
use oklib.Common.{
  ltb, ◌==◌, if◌then◌else◌, length, take, drop, Bytes, codes, ℕ, ◌+◌, ◌*◌, Bool, true, false, not,
  ◌||◌, Option, none, some, List, [], ◌∷◌,
}
use oklib.Http.Text.{equal, is_empty, find, trim_ows, split_commas}
use oklib.Http.Numbers.{parse_decimal_u64, Int32}
use oklib.Http.Request.{
  HttpMethod, invalid, get_method, head, post, put, delete_method, options, trace, connect, patch,
}
use oklib.Http.Response.{standard_reason_phrase}

pub record MethodInfo : Type 0 where
  pub method : HttpMethod
  pub token : Bytes
  pub safe : Bool
  pub idempotent : Bool

abbrev info : HttpMethod → Bytes → Bool → Bool → MethodInfo
info m t s i = record { method = m; token = t; safe = s; idempotent = i }

abbrev pub k_methods : List MethodInfo
k_methods =
    info get_method (codes "GET") true true
    ∷ info head (codes "HEAD") true true
    ∷ info post (codes "POST") false false
    ∷ info put (codes "PUT") false true
    ∷ info delete_method (codes "DELETE") false true
    ∷ info options (codes "OPTIONS") true true
    ∷ info trace (codes "TRACE") true true
    ∷ info connect (codes "CONNECT") false false
    ∷ info patch (codes "PATCH") false false
    ∷ []

-- The number of an enumerator, for `==`.
abbrev pub method_number : HttpMethod → ℕ
method_number invalid = 0
method_number get_method = 1
method_number head = 2
method_number post = 3
method_number put = 4
method_number delete_method = 5
method_number options = 6
method_number trace = 7
method_number connect = 8
method_number patch = 9

-- The loop over the table for a method.
abbrev pub find_method : HttpMethod → List MethodInfo → Option MethodInfo
find_method m [] = none
find_method m (i ∷ is) =
    if method_number i.method == method_number m then some i else find_method m is

abbrev pub find_token : Bytes → List MethodInfo → Option MethodInfo
find_token t [] = none
find_token t (i ∷ is) = if equal i.token t then some i else find_token t is

unfoldable pub standard_method_token : HttpMethod → Bytes
standard_method_token m = elim (find_method m k_methods) [ none ↦ [] | some i ↦ i.token ]

unfoldable pub standard_method_from_token : Bytes → Option HttpMethod
standard_method_from_token t = elim (find_token t k_methods) [
  | none ↦ none
  | some i ↦ some i.method
]

unfoldable pub is_safe_method : HttpMethod → Bool
is_safe_method m = elim (find_method m k_methods) [ none ↦ false | some i ↦ i.safe ]

unfoldable pub is_idempotent_method : HttpMethod → Bool
is_idempotent_method m = elim (find_method m k_methods) [ none ↦ false | some i ↦ i.idempotent ]

unfoldable pub is_standard_status_code : Int32 → Bool
is_standard_status_code code = not (is_empty (standard_reason_phrase code))

pub record ByteRangeSpec : Type 0 where
  pub first : Option ℕ
  pub last : Option ℕ
  pub suffix_length : Option ℕ

pub record RangeSet : Type 0 where
  pub unit : Bytes
  pub ranges : List ByteRangeSpec

pub record ContentRange : Type 0 where
  pub unit : Bytes
  pub unsatisfied : Bool
  pub first : Option ℕ
  pub last : Option ℕ
  pub complete_length : Option ℕ

-- `last_part` behind a first position.
unfoldable pub range_from : ℕ → Bytes → Option ByteRangeSpec
range_from first last_part =
    if is_empty last_part
    then some (record { first = some first; last = none; suffix_length = none })
    else elim (parse_decimal_u64 last_part) [
      | none ↦ none
      | some last ↦
          if ltb last first
          then none
          else some (record { first = some first; last = some last; suffix_length = none })
    ]

-- The two sides of the dash.
unfoldable pub range_parts : Bytes → Bytes → Option ByteRangeSpec
range_parts first_part last_part =
    if is_empty first_part
    then elim (parse_decimal_u64 last_part) [
      | none ↦ none
      | some suffix ↦
          if suffix == 0
          then none
          else some (record { first = none; last = none; suffix_length = some suffix })
    ]
    else elim (parse_decimal_u64 first_part) [
      | none ↦ none
      | some first ↦ range_from first last_part
    ]

-- The round of the loop, for one part.
unfoldable pub range_spec : Bytes → Option ByteRangeSpec
range_spec part = elim (find b'-' part) [
  | none ↦ none
  | some dash ↦ range_parts (trim_ows (take dash part)) (trim_ows (drop (dash + 1) part))
]

-- The loop over the parts.
unfoldable pub range_specs : List Bytes → Option (List ByteRangeSpec)
range_specs [] = some []
range_specs (part ∷ parts) =
    let rest = range_specs parts in
    elim (range_spec part) [
      | none ↦ none
      | some spec ↦ elim rest [ none ↦ none | some specs ↦ some (spec ∷ specs) ]
    ]

-- A set that has ranges.
unfoldable pub range_set : Bytes → List ByteRangeSpec → Option RangeSet
range_set unit [] = none
range_set unit (spec ∷ specs) = some (record { unit = unit; ranges = spec ∷ specs })

unfoldable pub parse_range_header : Bytes → Option RangeSet
parse_range_header value = elim (find b'=' value) [
  | none ↦ none
  | some equals ↦
      let unit = trim_ows (take equals value) in
      if equals == 0 || is_empty unit
      then none
      else elim (range_specs (split_commas (drop (equals + 1) value))) [
        | none ↦ none
        | some specs ↦ range_set unit specs
      ]
]

-- The outer `none` is the refusal, the inner one the star.
unfoldable pub parse_length_or_star : Bytes → Option (Option ℕ)
parse_length_or_star value =
    let trimmed = trim_ows value in
    if equal trimmed (codes "*")
    then some none
    else elim (parse_decimal_u64 trimmed) [ none ↦ none | some n ↦ some (some n) ]

abbrev pub fits_length : ℕ → Option ℕ → Bool
fits_length last none = true
fits_length last (some length) = ltb last length

-- The two positions, and the length that they have to fit.
unfoldable pub content_positions : Bytes → Bytes → Option ℕ → Option ContentRange
content_positions unit range_part length = elim (find b'-' range_part) [
  | none ↦ none
  | some dash ↦ elim (parse_decimal_u64 (take dash range_part)) [
    | none ↦ none
    | some first ↦ elim (parse_decimal_u64 (drop (dash + 1) range_part)) [
      | none ↦ none
      | some last ↦
          if ltb last first || not (fits_length last length)
          then none
          else some (record {
            unit = unit;
            unsatisfied = false;
            first = some first;
            last = some last;
            complete_length = length;
          })
    ]
  ]
]

-- What stands behind the unit.
unfoldable pub content_range_rest : Bytes → Bytes → Option ContentRange
content_range_rest unit rest = elim (find b'/' rest) [
  | none ↦ none
  | some slash ↦
      let range_part = trim_ows (take slash rest) in
      elim (parse_length_or_star (trim_ows (drop (slash + 1) rest))) [
        | none ↦ none
        | some length ↦
            if equal range_part (codes "*")
            then some (record {
              unit = unit;
              unsatisfied = true;
              first = none;
              last = none;
              complete_length = length;
            })
            else content_positions unit range_part length
      ]
]

unfoldable pub parse_content_range_header : Bytes → Option ContentRange
parse_content_range_header value = elim (find b' ' value) [
  | none ↦ none
  | some space ↦
      if space == 0
      then none
      else content_range_rest (take space value) (trim_ows (drop (space + 1) value))
]
