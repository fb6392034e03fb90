-- ===== src/Http/Parser/Lines.antt =====
-- The start line and the header lines: `parse_version`, `parse_request_line`,
-- `parse_response_line`, `parse_header_line`.
use oklib.Common.{
  ◌==◌, if◌then◌else◌, length, take, drop, Bytes, codes, ℕ, ◌+◌, ◌-◌, Bool, true, false, not, ◌||◌,
  Option, none, some, [], ◌∷◌,
}
use oklib.Http.Text.{equal, find, find_from, all_token}
use oklib.Http.Numbers.{from_chars_int, Int32}
use oklib.Http.Headers.{add}
use oklib.Http.Request.{set_method, set_request_target, HttpRequest, HttpVersion, http10, http11}
use oklib.Http.Parser.{
  set_error, message_headers, message_trailers, put_headers, put_trailers, HttpParser,
  bad_start_line, bad_header,
}

unfoldable pub parse_version : Bytes → Option HttpVersion
parse_version value =
    if equal value (codes "HTTP/1.1")
    then some http11
    else if equal value (codes "HTTP/1.0")
    then some http10
    else none

-- Where the two spaces of a request line stand, if there are exactly two.
unfoldable pub two_spaces : Bytes → Option (ℕ × ℕ)
two_spaces line = elim (find b' ' line) [
  | none ↦ none
  | some first ↦ elim (find_from b' ' (first + 1) line) [
    | none ↦ none
    | some second ↦ elim (find_from b' ' (second + 1) line) [
      | none ↦ some (first, second)
      | some third ↦ none
    ]
  ]
]

abbrev pub put_request : HttpRequest → HttpParser → HttpParser
put_request r p = record p { req = r }

-- The version token, with the method and the target already in place.
unfoldable pub finish_request_line : Bytes → ℕ → HttpParser → Bool × HttpParser
finish_request_line version receive_time p = elim (parse_version version) [
  | none ↦ set_error bad_start_line p
  | some v ↦ (true, put_request (record (p.req) { version = v; receive_time = receive_time }) p)
]

unfoldable pub parse_request_line : Bytes → ℕ → HttpParser → Bool × HttpParser
parse_request_line line receive_time p = elim (two_spaces line) [
  | none ↦ set_error bad_start_line p
  | some (first, second) ↦
      let (ok, r) = set_method (take first line) p.req in
      let target = take (second - first - 1) (drop (first + 1) line) in
      if ok
      then finish_request_line (drop (second + 1) line) receive_time
          (put_request (set_request_target target r) p)
      else set_error bad_start_line (put_request r p)
]

-- The status token ends at the second space, or with the line.
unfoldable pub status_token : ℕ → Bytes → Bytes
status_token first line = elim (find_from b' ' (first + 1) line) [
  | none ↦ drop (first + 1) line
  | some second ↦ take (second - (first + 1)) (drop (first + 1) line)
]

unfoldable pub reason_of : ℕ → Bytes → Bytes
reason_of first line = elim (find_from b' ' (first + 1) line) [
  | none ↦ []
  | some second ↦ drop (second + 1) line
]

-- Three characters that spell an `int`.
unfoldable pub parse_status : Bytes → Option Int32
parse_status token = if length token == 3 then from_chars_int token else none

unfoldable pub parse_response_line : Bytes → HttpParser → Bool × HttpParser
parse_response_line line p = elim (find b' ' line) [
  | none ↦ set_error bad_start_line p
  | some first ↦ elim (parse_version (take first line)) [
    | none ↦ set_error bad_start_line p
    | some v ↦ elim (parse_status (status_token first line)) [
      | none ↦ set_error bad_start_line p
      | some status ↦ (
        true,
        record p {
          resp = record (p.resp) {
            version = v;
            status_code = status;
            reason_phrase = reason_of first line;
          };
        },
      )
    ]
  ]
]

abbrev pub starts_blank : Bytes → Bool
starts_blank [] = false
starts_blank (c ∷ cs) = c == b' ' || c == b'\t'

-- The field and the value of a header line; `none` is the error `bad_header`.
unfoldable pub split_header_line : Bytes → Option (Bytes × Bytes)
split_header_line line = if starts_blank line then none else elim (find b':' line) [
  | none ↦ none
  | some colon ↦
      if colon == 0 || not (all_token (take colon line))
      then none
      else some (take colon line, drop (colon + 1) line)
]

-- On the fields of the message, and on its trailers.
unfoldable pub parse_header_line : Bytes → HttpParser → Bool × HttpParser
parse_header_line line p = elim (split_header_line line) [
  | none ↦ set_error bad_header p
  | some (field, value) ↦ (true, put_headers (add field value (message_headers p)) p)
]

unfoldable pub parse_trailer_line : Bytes → HttpParser → Bool × HttpParser
parse_trailer_line line p = elim (split_header_line line) [
  | none ↦ set_error bad_header p
  | some (field, value) ↦ (true, put_trailers (add field value (message_trailers p)) p)
]
