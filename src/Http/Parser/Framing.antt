-- ===== src/Http/Parser/Framing.antt =====
-- How the end of a message is found: `content_lengths`, `is_chunked_transfer`, `finish_headers`.
pub mod Fields
pub mod Unambiguous
use oklib.Common.{
  ltb, leb, ◌==◌, if◌then◌else◌, take, Bytes, codes, ℕ, Bool, true, false, not, ◌&&◌, Option, none,
  some, List, [], ◌∷◌, ◌++◌,
}
use oklib.Http.Text.{lowercase, equal, is_empty, find, trim_back, split_commas}
use oklib.Http.Numbers.{parse_decimal_u64, Int32, nonneg, negative}
use oklib.Http.Headers.{HttpHeaders, contains, values}
use oklib.Http.Request.{options, HttpVersion, http11}
use oklib.Http.Parser.{
  set_error, finish_message, is_request, message_headers, put_content_length, HttpParser, request,
  response, bad_header, bad_message_framing, body_too_large, headers, fixed_body, chunk_size,
}

-- Every part of the list is a number, or the whole is refused.
unfoldable pub parse_all : List Bytes → Option (List ℕ)
parse_all [] = some []
parse_all (part ∷ parts) =
    let rest = parse_all parts in
    elim (parse_decimal_u64 part) [
      | none ↦ none
      | some n ↦ elim rest [ none ↦ none | some ns ↦ some (n ∷ ns) ]
    ]

abbrev pub split_all : List Bytes → List Bytes
split_all [] = []
split_all (v ∷ vs) = split_commas v ++ split_all vs

unfoldable pub content_lengths : HttpHeaders → Option (List ℕ)
content_lengths hs = parse_all (split_all (values (codes "Content-Length") hs))

-- The loop that keeps the first length and refuses another one.
unfoldable pub agree_with : Option ℕ → List ℕ → Option (Option ℕ)
agree_with known [] = some known
agree_with none (n ∷ ns) = agree_with (some n) ns
agree_with (some k) (n ∷ ns) = let rest = agree_with (some k) ns in if k == n then rest else none

-- A coding in lower case and without its parameters.
unfoldable pub coding_name : Bytes → Bytes
coding_name part =
    let coding = lowercase part in
    elim (find b';' coding) [ none ↦ coding | some semicolon ↦ trim_back (take semicolon coding) ]

unfoldable pub codings_of : List Bytes → List Bytes
codings_of [] = []
codings_of (part ∷ parts) =
    let rest = codings_of parts in
    let coding = coding_name part in if is_empty coding then rest else coding ∷ rest

unfoldable pub transfer_codings : HttpHeaders → List Bytes
transfer_codings hs = codings_of (split_all (values (codes "Transfer-Encoding") hs))

-- `back() == "chunked"`.
unfoldable pub ends_chunked : List Bytes → Bool
ends_chunked [] = false
ends_chunked (c ∷ []) = equal c (codes "chunked")
ends_chunked (c ∷ d ∷ cs) = ends_chunked (d ∷ cs)

pub data Transfer : Type 0 where
  absent : Transfer
  chunked_last : Transfer
  unsupported : Transfer

-- `present`, `ok` and the result in one value.
unfoldable pub transfer_of : List Bytes → Transfer
transfer_of [] = absent
transfer_of (c ∷ cs) = if ends_chunked (c ∷ cs) then chunked_last else unsupported

unfoldable pub is_chunked_transfer : HttpHeaders → Transfer
is_chunked_transfer hs = transfer_of (transfer_codings hs)

-- `status_code_allows_body` of src/http/http_semantics.cpp.
unfoldable pub status_code_allows_body : Int32 → Bool
status_code_allows_body (nonneg s) = leb 200 s && not (s == 204) && not (s == 205) && not (s == 304)
status_code_allows_body (negative s) = false

abbrev pub is_http11 : HttpVersion → Bool
is_http11 http11 = true
is_http11 _ = false

-- What the framing fields say, or the refusal `bad_message_framing`.
unfoldable pub framing : HttpHeaders → Option (Option ℕ × Bool)
framing hs = elim (content_lengths hs) [
  | none ↦ none
  | some lengths ↦ elim (agree_with none lengths) [
    | none ↦ none
    | some content_length ↦ elim (is_chunked_transfer hs) [
      | unsupported ↦ none
      | absent ↦ some (content_length, false)
      | chunked_last ↦ elim content_length [ none ↦ some (none, true) | some n ↦ none ]
    ]
  ]
]

abbrev is_response_without_body : HttpParser → Bool
is_response_without_body p = not (is_request p) && not (status_code_allows_body p.resp.status_code)

abbrev lacks_host : HttpParser → Bool
lacks_host p =
    is_request p && is_http11 p.req.version && not (contains (codes "Host") p.req.headers)

abbrev pub put_length : Option ℕ → HttpParser → HttpParser
put_length none p = p
put_length (some n) p = put_content_length n p

-- A body of a known length that is not 0.
unfoldable pub begin_fixed_body : ℕ → HttpParser → Bool × HttpParser
begin_fixed_body n p =
    if not p.head_only && ltb p.options.max_body n
    then set_error body_too_large p
    else (true, record (put_content_length n p) { fixed_body_bytes = n; state = fixed_body })

unfoldable pub begin_chunked : HttpParser → Bool × HttpParser
begin_chunked p = (
  true,
  elim p.mode [
    | request ↦ record p { chunked = true; state = chunk_size }
    | response ↦ record p {
      chunked = true;
      state = chunk_size;
      resp = record (p.resp) { chunked = true };
    }
  ],
)

unfoldable pub begin_body : Option ℕ → Bool → HttpParser → Bool × HttpParser
begin_body content_length is_chunked p =
    if is_chunked then begin_chunked p else elim content_length [
      | none ↦ finish_message p
      | some n ↦ if n == 0 then finish_message (put_content_length n p) else begin_fixed_body n p
    ]

unfoldable pub finish_headers : HttpParser → Bool × HttpParser
finish_headers p = elim (framing (message_headers p)) [
  | none ↦ set_error bad_message_framing p
  | some (content_length, is_chunked) ↦
      if is_response_without_body p
      then finish_message (put_length content_length p)
      else if lacks_host p
      then set_error bad_header p
      else begin_body content_length is_chunked p
]
