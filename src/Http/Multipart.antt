-- ===== src/Http/Multipart.antt =====
-- src/http/multipart_parser.cpp: the parser of a whole body.
pub mod Values
pub mod Search
pub mod Whole
pub mod Streaming
mod Tests
use oklib.Common.{
  ltb, if◌then◌else◌, length, take, drop, Bytes, codes, ℕ, zero, suc, ◌+◌, ◌⊎◌, inl, inr, not, ◌||◌,
  Option, none, some, List, [], ◌∷◌, ◌++◌,
}
use oklib.Http.Multipart.Values.{
  starts_with, find_text, parse_header_value, parameter_value, decoded_parameter_value,
  decoded_filename_value, crlf, parse_part_headers,
}
use oklib.Http.Text.{equal, is_empty}
use oklib.Http.Headers.{HttpHeaders, get}

pub record MultipartPart : Type 0 where
  pub headers : HttpHeaders
  pub name : Bytes
  pub filename : Bytes
  pub content_type : Bytes
  pub body : Bytes

pub data MultipartParseError : Type 0 where
  invalid_content_type missing_boundary malformed_body : MultipartParseError
  malformed_headers limits_exceeded : MultipartParseError

-- `MultipartParseResult`, without the text of its message.
pub data MultipartParseResult : Type 0 where
  parsed : List MultipartPart → MultipartParseResult
  failure : MultipartParseError → MultipartParseResult

pub record MultipartParseOptions : Type 0 where
  pub max_body_bytes : ℕ
  pub max_header_bytes : ℕ
  pub max_parts : ℕ

-- A part with these headers, if its disposition is `form-data`.
unfoldable pub part_of : HttpHeaders → Bytes → Option MultipartPart
part_of hs body =
    let disposition = parse_header_value (get (codes "Content-Disposition") hs) in
    if not (equal disposition.token (codes "form-data"))
    then none
    else some (record {
      headers = hs;
      name = decoded_parameter_value disposition (codes "name");
      filename = decoded_filename_value disposition;
      content_type = get (codes "Content-Type") hs;
      body = body;
    })

-- The headers of a part that are within the limit, and the part with its body.
unfoldable pub begin_part :
    MultipartParseOptions → Bytes → Bytes → MultipartPart ⊎ MultipartParseError
begin_part options block body =
    if ltb options.max_header_bytes (length block)
    then inr limits_exceeded
    else elim (parse_part_headers block) [
      | none ↦ inr malformed_headers
      | some hs ↦ elim (part_of hs body) [ none ↦ inr malformed_headers | some part ↦ inl part ]
    ]

abbrev pub double_crlf : Bytes
double_crlf = codes "\r\n\r\n"

-- What one round of the loop does: it returns, or it goes on behind the next boundary.
pub data PartRound : Type 0 where
  part_returns : MultipartParseResult → PartRound
  part_goes_on : Bytes → List MultipartPart → PartRound

-- The part with this block of headers, whose content ends where the delimiter has been found.
unfoldable pub part_with :
    MultipartParseOptions → Bytes → Bytes → Bytes → List MultipartPart → Option ℕ → PartRound
part_with options delimiter block content parts none = elim (begin_part options block []) [
  | inr e ↦ part_returns (failure e)
  | inl part ↦ part_returns (failure malformed_body)
]
part_with options delimiter block content parts (some d) =
    elim (begin_part options block (take d content)) [
      | inr e ↦ part_returns (failure e)
      | inl part ↦
          if ltb options.max_parts (length (parts ++ part ∷ []))
          then part_returns (failure limits_exceeded)
          else part_goes_on (drop (d + length delimiter) content) (parts ++ part ∷ [])
    ]

-- The part behind a boundary's line, whose headers end where the empty line has been found.
unfoldable pub part_behind :
    MultipartParseOptions → Bytes → Bytes → List MultipartPart → Option ℕ → PartRound
part_behind options delimiter rest parts none = part_returns (failure malformed_headers)
part_behind options delimiter rest parts (some header_end) =
    let content = drop (header_end + 4) rest in
    part_with options delimiter (take header_end rest) content parts (find_text delimiter content)

-- One round, from behind a boundary.
unfoldable pub part_round : MultipartParseOptions → Bytes → Bytes → List MultipartPart → PartRound
part_round options delimiter rest parts =
    if starts_with rest (codes "--")
    then part_returns (parsed parts)
    else if not (starts_with rest crlf)
    then part_returns (failure malformed_body)
    else part_behind options delimiter (drop 2 rest) parts (find_text double_crlf (drop 2 rest))

-- The loop. Every round takes the boundary's line at least; `none` says that the fuel ran out.
unfoldable pub parts_loop :
    ℕ → MultipartParseOptions → Bytes → Bytes → List MultipartPart → Option MultipartParseResult
parts_loop zero options delimiter rest parts = none
parts_loop (suc fuel) options delimiter rest parts =
    elim (part_round options delimiter rest parts) [
      | part_returns r ↦ some r
      | part_goes_on later more ↦ parts_loop fuel options delimiter later more
    ]

unfoldable pub multipart_boundary : Bytes → Option Bytes
multipart_boundary content_type =
    let value = parse_header_value content_type in
    let boundary = parameter_value value (codes "boundary") in
    if not (equal value.token (codes "multipart/form-data")) || is_empty boundary
    then none
    else some boundary

unfoldable pub parse_multipart_form_data :
    Bytes → Bytes → MultipartParseOptions → Option MultipartParseResult
parse_multipart_form_data content_type body options =
    if ltb options.max_body_bytes (length body)
    then some (failure limits_exceeded)
    else elim (multipart_boundary content_type) [
      | none ↦ some (
          failure (
            if equal (parse_header_value content_type).token (codes "multipart/form-data")
            then missing_boundary
            else invalid_content_type))
      | some boundary ↦
          let marker = codes "--" ++ boundary in
          if not (starts_with body marker)
          then some (failure malformed_body)
          else parts_loop (suc (length body)) options (crlf ++ marker) (drop (length marker) body)
              []
    ]

-- `MultipartParseResult::find`.
unfoldable pub find_part : Bytes → List MultipartPart → Option MultipartPart
find_part name [] = none
find_part name (part ∷ parts) = if equal part.name name then some part else find_part name parts
