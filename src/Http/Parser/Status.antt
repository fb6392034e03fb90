-- ===== src/Http/Parser/Status.antt =====
-- What each part of a round says of the parser behind it: whether it has met an error.
pub mod Returned
use oklib.Common.{
  ◌==◌, Bool-cases, Option-cases, take, Bytes, ℕ, zero, suc, ◌+◌, ◌≡◌, ◌∙◌, ◌≢◌, inl, inr, Bool,
  true, false, Option, none, some, arith,
}
use oklib.Http.Request.{set_method}
use oklib.Http.Parser.{
  message_headers, HttpParser, HttpParseStatus, incomplete, complete, error, no_error, start_line,
  headers, fixed_body, chunk_size, chunk_data, trailers, completed, failed,
}
use oklib.Http.Parser.Lines.{
  two_spaces, finish_request_line, parse_request_line, parse_response_line, parse_header_line,
  parse_trailer_line,
}
use oklib.Http.Parser.Framing.{framing, begin_fixed_body, begin_chunked, begin_body, finish_headers}
use oklib.Http.Parser.Body.{
  parse_fixed_body, chunk_line_size, begin_chunk, parse_chunk_size, parse_chunk_data,
  forbidden_line, parse_trailers_fuel, Call,
}
use oklib.Buffer.{contents, find_crlf, retrieve_until, Buffer}
use oklib.Http.Parser.Loop.{
  parse_start_line, start_line_round, after_headers, header_line_round, headers_round, go_on, ends,
  Round, returns, continues, diverges,
}

-- A parser of whole messages that has met no error.
abbrev pub Healthy : HttpParser → Type 0
Healthy p = (p.last_error ≡ no_error) × (p.state ≢ failed) × (p.head_only ≡ false)

-- A parser that has met one.
abbrev pub Broken : HttpParser → Type 0
Broken p = (p.last_error ≢ no_error) × (p.state ≡ failed)

-- The status that goes with the parser.
abbrev pub IsStatusOf : HttpParseStatus → HttpParser → Type 0
IsStatusOf complete p = Healthy p × (p.state ≡ completed)
IsStatusOf incomplete p = Healthy p × (p.state ≢ completed)
IsStatusOf error p = Broken p

-- A call's Boolean says whether an error has been met.
abbrev Answers : Bool × HttpParser → Type 0
Answers (true, p) = Healthy p
Answers (false, p) = Broken p

finish_request_line-Answers :
    (version : Bytes) (t : ℕ) (p : HttpParser)
    → Healthy p
    → Answers (finish_request_line version t p)
unfolding finish_request_line
finish_request_line-Answers version t p h = ground arith

parse_request_line-Answers :
    (line : Bytes) (t : ℕ) (p : HttpParser) → Healthy p → Answers (parse_request_line line t p)
unfolding parse_request_line
parse_request_line-Answers line t p h = elim (Option-cases (two_spaces line)) [
  | inl e ↦ rw (e, parse_request_line) (ground arith)
  | inr ((first, second), e) ↦ elim (Bool-cases (set_method (take first line) p.req).0) [
    | inl k ↦ rw (e, parse_request_line, k) (finish_request_line-Answers _ t _ h)
    | inr k ↦ rw (e, parse_request_line, k) (ground arith)
  ]
]

parse_response_line-Answers :
    (line : Bytes) (p : HttpParser) → Healthy p → Answers (parse_response_line line p)
unfolding parse_response_line
parse_response_line-Answers line p h = ground arith

parse_header_line-Answers :
    (line : Bytes) (p : HttpParser) → Healthy p → Answers (parse_header_line line p)
unfolding parse_header_line
parse_header_line-Answers line p h = ground arith

parse_trailer_line-Answers :
    (line : Bytes) (p : HttpParser) → Healthy p → Answers (parse_trailer_line line p)
unfolding parse_trailer_line
parse_trailer_line-Answers line p h = ground arith

begin_body-Answers :
    (n : Option ℕ) (chunked : Bool) (p : HttpParser) → Healthy p → Answers (begin_body n chunked p)
unfolding begin_body begin_fixed_body begin_chunked
begin_body-Answers n chunked p h = ground arith

finish_headers-Answers : (p : HttpParser) → Healthy p → Answers (finish_headers p)
unfolding finish_headers
finish_headers-Answers p h = elim (Option-cases (framing (message_headers p))) [
  | inl e ↦ rw (e, finish_headers) (ground arith)
  | inr ((n, chunked), e) ↦
      rw (e, finish_headers) (ground (arith, begin_body-Answers n chunked p h))
]

begin_chunk-Answers : (n : ℕ) (p : HttpParser) → Healthy p → Answers (begin_chunk n p)
unfolding begin_chunk
begin_chunk-Answers n p h = ground arith

-- What a round says of the parser behind it.
abbrev pub Tells : Round → Type 0
Tells (returns s q c) = IsStatusOf s q
Tells (continues q c) = Healthy q
Tells diverges = Unit

parse_start_line-Answers :
    (line : Bytes) (t : ℕ) (p : HttpParser) → Healthy p → Answers (parse_start_line line t p)
unfolding parse_start_line
parse_start_line-Answers line t p h =
    ground (arith, parse_request_line-Answers line t p h, parse_response_line-Answers line p h)

pub start_line-Tells :
    (t : ℕ) (p : HttpParser) (b : Buffer)
    → Healthy p
    → p.state ≡ start_line
    → Tells (start_line_round t p b)
unfolding start_line_round
start_line-Tells t p b h s = elim (Option-cases (find_crlf b)) [
  | inl e ↦ rw (e, start_line_round) (ground arith)
  | inr (i, e) ↦
      rw (e, start_line_round)
        (ground (arith, parse_start_line-Answers (take i (contents b)) t p h))
]

after_headers-Tells : (r : Bool × HttpParser) (b : Buffer) → Answers r → Tells (after_headers r b)
unfolding after_headers
after_headers-Tells (false, p) b h = h
after_headers-Tells (true, p) b h = ground arith

pub headers-Tells :
    (p : HttpParser) (b : Buffer) → Healthy p → p.state ≡ headers → Tells (headers_round p b)
unfolding headers_round header_line_round
headers-Tells p b h s = elim (Option-cases (find_crlf b)) [
  | inl e ↦ rw (e, headers_round) (ground arith)
  | inr (i, e) ↦
      let counted : HttpParser = record p { header_bytes = p.header_bytes + (i + 2) } in
      rw (e, headers_round)
        (ground (
          arith,
          parse_header_line-Answers (take i (contents b)) counted h,
          after_headers-Tells (finish_headers counted) (retrieve_until (i + 2) b)
              (finish_headers-Answers counted h),
        ))
]

pub chunk_size-Tells :
    (p : HttpParser) (b : Buffer)
    → Healthy p
    → p.state ≡ chunk_size
    → Tells (go_on (parse_chunk_size p b))
unfolding parse_chunk_size
chunk_size-Tells p b h s = elim (Option-cases (find_crlf b)) [
  | inl e ↦ rw (e, parse_chunk_size) (ground arith)
  | inr (i, e) ↦ elim (Option-cases (chunk_line_size (take i (contents b)))) [
    | inl k ↦ rw (e, parse_chunk_size, k) (ground arith)
    | inr (n, k) ↦ rw (e, parse_chunk_size, k) (ground (arith, begin_chunk-Answers n p h))
  ]
]

pub chunk_data-Tells :
    (p : HttpParser) (b : Buffer)
    → Healthy p
    → p.state ≡ chunk_data
    → Tells (go_on (parse_chunk_data p b))
unfolding parse_chunk_data
chunk_data-Tells p b h s = ground arith

pub fixed_body-Tells :
    (p : HttpParser) (b : Buffer)
    → Healthy p
    → p.state ≡ fixed_body
    → Tells (ends (parse_fixed_body p b))
unfolding parse_fixed_body
fixed_body-Tells p b h s = ground arith

answered_true : (r : Bool × HttpParser) → r.0 ≡ true → Answers r → Healthy r.1
answered_true (true, p) e h = h
answered_true (false, p) e h = absurd (ground arith)

trailer_line-state :
    (line : Bytes) (p : HttpParser)
    → (parse_trailer_line line p).0 ≡ true
    → (parse_trailer_line line p).1.state ≡ p.state
unfolding parse_trailer_line
trailer_line-state line p h = ground arith

abbrev pub TrailersTell : Option Call → Type 0
TrailersTell none = Unit
TrailersTell (some c) = Tells (ends c)

pub trailers_fuel-Tells :
    (fuel : ℕ) (p : HttpParser) (b : Buffer)
    → Healthy p
    → p.state ≡ trailers
    → TrailersTell (parse_trailers_fuel fuel p b)
unfolding parse_trailers_fuel
trailers_fuel-Tells zero p b h s = tt
trailers_fuel-Tells (suc fuel) p b h s = elim (Option-cases (find_crlf b)) [
  | inl e ↦ rw (e, parse_trailers_fuel) (ground arith)
  | inr (i, e) ↦
      let line = take i (contents b) in
      let r = parse_trailer_line-Answers line p h in
      elim (Bool-cases (i == 0)) [
        | inl k ↦ rw (e, parse_trailers_fuel, k) (ground arith)
        | inr k ↦ elim (Bool-cases (forbidden_line line)) [
          | inl f ↦ rw (e, parse_trailers_fuel, k, f) (ground arith)
          | inr f ↦ elim (Bool-cases (parse_trailer_line line p).0) [
            | inr g ↦ rw (e, parse_trailers_fuel, k, f, g) (ground (arith, r))
            | inl g ↦
                rw (e, parse_trailers_fuel, k, f, g)
                  (trailers_fuel-Tells fuel _ _ (answered_true (parse_trailer_line line p) g r)
                    (trailer_line-state line p g ∙ s))
          ]
        ]
      ]
]
