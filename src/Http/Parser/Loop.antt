-- ===== src/Http/Parser/Loop.antt =====
-- The loops: `parse`, `parse_request_head`, `parse_response_head`, and the entry points.
use oklib.Common.{
  ltb, ◌==◌, if◌then◌else◌, take, Bytes, ℕ, zero, suc, ◌+◌, Bool, true, false, Option, none, some,
}
use oklib.Buffer.{readable_bytes, contents, find_crlf, retrieve_until, Buffer}
use oklib.Http.Parser.{
  set_error, HttpParser, request, response, HttpParseStatus, incomplete, complete, error,
  HttpParseError, no_error, bad_start_line, header_too_large, State, start_line, headers,
  fixed_body, chunk_size, chunk_data, trailers, completed, failed,
}
use oklib.Http.Parser.Lines.{parse_request_line, parse_response_line, parse_header_line}
use oklib.Http.Parser.Framing.{finish_headers}
use oklib.Http.Parser.Body.{
  parse_fixed_body, parse_chunk_size, parse_chunk_data, parse_trailers, Call,
}

-- What one round of a loop does: it returns a status, or it goes on.
pub data Round : Type 0 where
  returns : HttpParseStatus → HttpParser → Buffer → Round
  continues : HttpParser → Buffer → Round
  diverges : Round

abbrev pub fails : HttpParseError → HttpParser → Buffer → Round
fails e p b = returns error (set_error e p).1 b

unfoldable pub parse_start_line : Bytes → ℕ → HttpParser → Bool × HttpParser
parse_start_line line receive_time p = elim p.mode [
  | request ↦ parse_request_line line receive_time p
  | response ↦ parse_response_line line p
]

-- `case State::start_line`.
unfoldable pub start_line_round : ℕ → HttpParser → Buffer → Round
start_line_round receive_time p b = elim (find_crlf b) [
  | none ↦
      if ltb p.options.max_start_line (readable_bytes b)
      then fails bad_start_line p b
      else returns incomplete p b
  | some line_size ↦
      let r = parse_start_line (take line_size (contents b)) receive_time p in
      if ltb p.options.max_start_line line_size
      then fails bad_start_line p b
      else if r.0
      then continues (record (r.1) { state = headers }) (retrieve_until (line_size + 2) b)
      else returns error r.1 b
]

-- The empty line. `parse` goes on into the body, the head functions return.
unfoldable pub after_headers : Bool × HttpParser → Buffer → Round
after_headers (false, p) b = returns error p b
after_headers (true, p) b = elim p.state [
  | completed ↦ returns complete p b
  | _ ↦ if p.head_only then returns complete p b else continues p b
]

-- A line of `line_size` bytes, counted with its CR LF in `counted`.
unfoldable pub header_line_round : ℕ → HttpParser → Buffer → Round
header_line_round line_size counted b =
    let r = parse_header_line (take line_size (contents b)) counted in
    let ended = after_headers (finish_headers counted) (retrieve_until (line_size + 2) b) in
    if ltb counted.options.max_headers counted.header_bytes
    then fails header_too_large counted b
    else if line_size == 0
    then ended
    else if r.0
    then continues r.1 (retrieve_until (line_size + 2) b)
    else returns error r.1 b

-- `case State::headers`.
unfoldable pub headers_round : HttpParser → Buffer → Round
headers_round p b = elim (find_crlf b) [
  | none ↦
      if ltb p.options.max_headers (p.header_bytes + readable_bytes b)
      then fails header_too_large p b
      else returns incomplete p b
  | some line_size ↦
      header_line_round line_size (record p { header_bytes = p.header_bytes + (line_size + 2) }) b
]

-- `error_ == HttpParseError::none ? incomplete : error`.
abbrev pub status_of : HttpParseError → HttpParseStatus
status_of no_error = incomplete
status_of _ = error

-- A call that returned `false` ends the loop; one that returned `true` goes on.
abbrev pub go_on : Call → Round
go_on c =
    if c.ok
    then continues c.parser c.buffer
    else returns (status_of c.parser.last_error) c.parser c.buffer

-- A call behind which the message is complete.
abbrev pub ends : Call → Round
ends c =
    if c.ok
    then returns complete c.parser c.buffer
    else returns (status_of c.parser.last_error) c.parser c.buffer

-- One round of `parse`: the switch on the state.
unfoldable pub round_in : State → ℕ → HttpParser → Buffer → Round
round_in start_line receive_time p b = start_line_round receive_time p b
round_in headers receive_time p b = headers_round p b
round_in fixed_body receive_time p b = ends (parse_fixed_body p b)
round_in chunk_size receive_time p b = go_on (parse_chunk_size p b)
round_in chunk_data receive_time p b = go_on (parse_chunk_data p b)
round_in trailers receive_time p b = elim (parse_trailers p b) [ none ↦ diverges | some c ↦ ends c ]
round_in completed receive_time p b = returns complete p b
round_in failed receive_time p b = returns error p b

-- One round of `parse_request_head` and `parse_response_head`, whose loops stop at the body.
unfoldable pub head_round_in : State → ℕ → HttpParser → Buffer → Round
head_round_in start_line receive_time p b = start_line_round receive_time p b
head_round_in headers receive_time p b = headers_round p b
head_round_in failed receive_time p b = returns error p b
head_round_in _ receive_time p b = returns complete p b

pub record Parsed : Type 0 where
  pub status : HttpParseStatus
  pub parser : HttpParser
  pub buffer : Buffer

-- The loop. `none` says that the fuel ran out.
unfoldable pub loop : (HttpParser → Buffer → Round) → ℕ → HttpParser → Buffer → Option Parsed
loop round zero p b = none
loop round (suc fuel) p b = elim (round p b) [
  | returns s q c ↦ some (record { status = s; parser = q; buffer = c })
  | continues q c ↦ loop round fuel q c
  | diverges ↦ none
]

-- Every round that goes on takes two bytes at least, so one more than there are is enough.
unfoldable pub parse : ℕ → HttpParser → Buffer → Option Parsed
parse receive_time p b =
    loop (λ q c. round_in q.state receive_time q c) (suc (readable_bytes b)) p b

unfoldable pub parse_head : ℕ → HttpParser → Buffer → Option Parsed
parse_head receive_time p b =
    loop (λ q c. head_round_in q.state receive_time q c) (suc (readable_bytes b)) p b

unfoldable pub parse_request : ℕ → HttpParser → Buffer → Option Parsed
parse_request receive_time p b =
    parse receive_time (record p { mode = request; head_only = false }) b

unfoldable pub parse_request_head : ℕ → HttpParser → Buffer → Option Parsed
parse_request_head receive_time p b =
    parse_head receive_time (record p { mode = request; head_only = true }) b

-- `Timestamp::invalid()` is 0.
unfoldable pub parse_response : HttpParser → Buffer → Option Parsed
parse_response p b = parse 0 (record p { mode = response; head_only = false }) b

unfoldable pub parse_response_head : HttpParser → Buffer → Option Parsed
parse_response_head p b = parse_head 0 (record p { mode = response; head_only = true }) b
