-- ===== src/Http/Parser/Progress.antt =====
-- Every call of the parser ends: a round that goes on takes two bytes at least off the buffer.
use oklib.Common.{
  Option-cases, take, get_or_within, ℕ, zero, suc, ◌+◌, ◌≤◌, ◌<◌, min, ◌≡◌, refl, inl, inr, Bool,
  true, false, Option, none, some, arith,
}
use oklib.Buffer.{readable_bytes, contents, find_crlf, retrieve_until, retrieve_as_string, Buffer}
use oklib.Buffer.Invariant.{length-contents, retrieve-IsValid, IsValid}
use oklib.Buffer.Crlf.{retrieve_line}
use oklib.Http.Parser.{
  HttpParser, State, start_line, headers, fixed_body, chunk_size, chunk_data, trailers, completed,
  failed,
}
use oklib.Http.Parser.Loop.{
  start_line_round, after_headers, header_line_round, headers_round, go_on, ends, round_in,
  head_round_in, loop, parse, parse_head, parse_request, parse_request_head, parse_response,
  parse_response_head, Parsed, Round, returns, continues, diverges,
}
use oklib.Buffer.Contents.{readable-retrieve}
use oklib.Http.Parser.Framing.{finish_headers}
use oklib.Http.Parser.Body.{
  parse_fixed_body, begin_chunk, parse_chunk_size, parse_chunk_data, parse_trailers_fuel,
  parse_trailers, Call,
}
use oklib.Http.Parser.Lines.{parse_trailer_line}

-- A buffer that `b` has become.
abbrev pub Shrunk : Buffer → Buffer → Type 0
Shrunk b c = IsValid c × (readable_bytes c ≤ readable_bytes b)

-- What a round may do with the buffer `b`.
abbrev pub Advances : Buffer → Round → Type 0
Advances b (returns s q c) = Shrunk b c
Advances b (continues q c) = IsValid c × (readable_bytes c + 2 ≤ readable_bytes b)
Advances b diverges = ⊥

start_line-Advances :
    (t : ℕ) (p : HttpParser) (b : Buffer) → IsValid b → Advances b (start_line_round t p b)
unfolding start_line_round
start_line-Advances t p b v = elim (Option-cases (find_crlf b)) [
  | inl e ↦ rw (e, start_line_round) (ground arith)
  | inr (i, e) ↦ rw (e, start_line_round) (ground (arith, retrieve_line b v e))
]

after_headers-Advances :
    (r : Bool × HttpParser) (b c : Buffer)
    → IsValid c
    → readable_bytes c + 2 ≤ readable_bytes b
    → Advances b (after_headers r c)
unfolding after_headers
after_headers-Advances (false, p) b c v h = (v, omega arith)
after_headers-Advances (true, p) b c v h = ground arith

headers-Advances : (p : HttpParser) (b : Buffer) → IsValid b → Advances b (headers_round p b)
unfolding headers_round header_line_round
headers-Advances p b v = elim (Option-cases (find_crlf b)) [
  | inl e ↦ rw (e, headers_round) (ground arith)
  | inr (i, e) ↦
      let line = retrieve_line b v e in
      let counted : HttpParser = record p { header_bytes = p.header_bytes + (i + 2) } in
      rw (e, headers_round)
        (ground (
          arith,
          line,
          after_headers-Advances (finish_headers counted) b (retrieve_until (i + 2) b) line.0
              line.1,
        ))
]

fixed_body-Advances :
    (p : HttpParser) (b : Buffer) → IsValid b → Advances b (ends (parse_fixed_body p b))
unfolding parse_fixed_body retrieve_as_string
fixed_body-Advances p b v = ground (
  arith,
  retrieve-IsValid (min p.fixed_body_bytes (readable_bytes b)) b v,
  readable-retrieve (min p.fixed_body_bytes (readable_bytes b)) b v,
)

chunk_size-Advances :
    (p : HttpParser) (b : Buffer) → IsValid b → Advances b (go_on (parse_chunk_size p b))
unfolding parse_chunk_size begin_chunk
chunk_size-Advances p b v = elim (Option-cases (find_crlf b)) [
  | inl e ↦ rw (e, parse_chunk_size) (ground arith)
  | inr (i, e) ↦ rw (e, parse_chunk_size) (ground (arith, retrieve_line b v e))
]

-- The CR and the LF behind a chunk are unread bytes.
chunk_data-Advances :
    (p : HttpParser) (b : Buffer) → IsValid b → Advances b (go_on (parse_chunk_data p b))
unfolding parse_chunk_data
chunk_data-Advances p b v = ground (
  arith,
  get_or_within (contents b) (p.current_chunk_size + 1),
  length-contents b v,
  retrieve-IsValid (p.current_chunk_size + 2) b v,
  readable-retrieve (p.current_chunk_size + 2) b v,
)

-- What a call that reads trailers may do with the buffer.
abbrev CallShrinks : Buffer → Option Call → Type 0
CallShrinks b none = ⊥
CallShrinks b (some c) = Shrunk b c.buffer

-- Fewer bytes are fewer than more.
CallShrinks-mono :
    (b c : Buffer) (r : Option Call)
    → readable_bytes c + 2 ≤ readable_bytes b
    → CallShrinks c r
    → CallShrinks b r
CallShrinks-mono b c none h s = s
CallShrinks-mono b c (some r) h s = (s.0, omega arith)

trailers_fuel-Shrinks :
    (fuel : ℕ) (p : HttpParser) (b : Buffer)
    → IsValid b
    → readable_bytes b < fuel
    → CallShrinks b (parse_trailers_fuel fuel p b)
unfolding parse_trailers_fuel
trailers_fuel-Shrinks zero p b v h = absurd (omega arith)
trailers_fuel-Shrinks (suc fuel) p b v h = elim (Option-cases (find_crlf b)) [
  | inl e ↦ rw (e, parse_trailers_fuel) (v, omega arith)
  | inr (i, e) ↦
      let line = retrieve_line b v e in
      let r = parse_trailer_line (take i (contents b)) p in
      let later = trailers_fuel-Shrinks fuel r.1 (retrieve_until (i + 2) b) line.0 (omega arith) in
      rw (e, parse_trailers_fuel)
        (ground (
          arith,
          line,
          CallShrinks-mono b (retrieve_until (i + 2) b)
              (parse_trailers_fuel fuel r.1 (retrieve_until (i + 2) b)) line.1 later,
        ))
]

trailers-Advances :
    (t : ℕ) (p : HttpParser) (b : Buffer) → IsValid b → Advances b (round_in trailers t p b)
unfolding round_in parse_trailers
trailers-Advances t p b v =
    trailers_result (parse_trailers_fuel (suc (readable_bytes b)) p b)
      (trailers_fuel-Shrinks (suc (readable_bytes b)) p b v (omega arith))
  where
    trailers_result :
        (r : Option Call)
        → CallShrinks b r
        → Advances b (elim r [ none ↦ diverges | some c ↦ ends c ])
    trailers_result none s = s
    trailers_result (some c) s = ground arith

pub round-Advances :
    (s : State) (t : ℕ) (p : HttpParser) (b : Buffer) → IsValid b → Advances b (round_in s t p b)
unfolding round_in
round-Advances start_line t p b v = start_line-Advances t p b v
round-Advances headers t p b v = headers-Advances p b v
round-Advances fixed_body t p b v = fixed_body-Advances p b v
round-Advances chunk_size t p b v = chunk_size-Advances p b v
round-Advances chunk_data t p b v = chunk_data-Advances p b v
round-Advances trailers t p b v = trailers-Advances t p b v
round-Advances completed t p b v = (v, omega arith)
round-Advances failed t p b v = (v, omega arith)

pub head_round-Advances :
    (s : State) (t : ℕ) (p : HttpParser) (b : Buffer)
    → IsValid b
    → Advances b (head_round_in s t p b)
unfolding head_round_in
head_round-Advances start_line t p b v = start_line-Advances t p b v
head_round-Advances headers t p b v = headers-Advances p b v
head_round-Advances failed t p b v = (v, omega arith)
head_round-Advances _ t p b v = (v, omega arith)

abbrev Ends : (HttpParser → Buffer → Round) → ℕ → HttpParser → Buffer → Type 0
Ends round fuel p b = (r : Parsed) × (loop round fuel p b ≡ some r) × Shrunk b r.buffer

loop_step :
    (round : HttpParser → Buffer → Round) (fuel : ℕ) (p : HttpParser) (b : Buffer) (r : Round)
    → ((q : HttpParser) (c : Buffer) → IsValid c → readable_bytes c < fuel → Ends round fuel q c)
    → readable_bytes b < suc fuel
    → Advances b r
    → round p b ≡ r
    → Ends round (suc fuel) p b
unfolding loop
loop_step round fuel p b (returns s q c) rest h a e =
    (record { status = s; parser = q; buffer = c }, ground (arith, e), a)
loop_step round fuel p b (continues q c) rest h a e =
    let (r, eq, (v, le)) = rest q c a.0 (omega arith) in
    (r, ground (arith, e, eq), (v, omega arith))
loop_step round fuel p b diverges rest h a e = absurd a

-- A loop of such rounds ends when its fuel exceeds the unread bytes.
pub loop_total :
    (round : HttpParser → Buffer → Round)
    → ((p : HttpParser) (b : Buffer) → IsValid b → Advances b (round p b))
    → (fuel : ℕ) (p : HttpParser) (b : Buffer) → IsValid b
    → readable_bytes b < fuel
    → Ends round fuel p b
loop_total round advances zero p b v h = absurd (omega arith)
loop_total round advances (suc fuel) p b v h =
    loop_step round fuel p b (round p b) (loop_total round advances fuel) h (advances p b v) refl

-- Each of the four entry points returns on every valid buffer, whatever the parser's state and the
-- bytes, with a valid buffer that has no more unread bytes than before.
pub parse_request_total :
    (t : ℕ) (p : HttpParser) (b : Buffer)
    → IsValid b
    → ((r : Parsed) × (parse_request t p b ≡ some r) × Shrunk b r.buffer)
      × ((r : Parsed) × (parse_request_head t p b ≡ some r) × Shrunk b r.buffer)
      × ((r : Parsed) × (parse_response p b ≡ some r) × Shrunk b r.buffer)
      × ((r : Parsed) × (parse_response_head p b ≡ some r) × Shrunk b r.buffer)
unfolding parse_request parse_request_head parse_response parse_response_head parse parse_head
parse_request_total t p b v = (
  loop_total _ (λ q c. round-Advances q.state t q c) (suc (readable_bytes b)) _ b v (omega arith),
  loop_total _ (λ q c. head_round-Advances q.state t q c) (suc (readable_bytes b)) _ b v
      (omega arith),
  loop_total _ (λ q c. round-Advances q.state 0 q c) (suc (readable_bytes b)) _ b v (omega arith),
  loop_total _ (λ q c. head_round-Advances q.state 0 q c) (suc (readable_bytes b)) _ b v
      (omega arith),
)
