-- ===== src/Http/Context/Streaming.antt =====
-- `process_streaming_body` of src/http/http_context.cpp: the rounds of its two loops, and what
-- `cancel_streaming_body` does. What the application's callbacks do to the stream is a parameter.
use oklib.Common.{
  ltb, ◌==◌, if◌then◌else◌, get_or, take, Bytes, ℕ, zero, suc, ◌+◌, ◌-◌, ◌%◌, ◌^◌, min, false, not,
  ◌&&◌, ◌||◌, Option, none, some, List, [], ◌∷◌, ◌++◌,
}
use oklib.Buffer.{readable_bytes, contents, find_crlf, retrieve, retrieve_until, Buffer}
use oklib.Http.Text.{find}
use oklib.Http.Numbers.{parse_hex_u64}
use oklib.Http.Parser.{HttpParseStatus, incomplete, complete, error}
use oklib.Http.Parser.Loop.{ends}
use oklib.Http.BodyStream.{on_data, on_complete, on_cancel, run, BodyStream, Event, Call}
use oklib.Http.Context.{
  k_max_streaming_trailers, k_max_streaming_body, valid_trailer_line, HttpContext, no_mode,
  chunked_body, StreamingChunkState, reads_size, reads_data, reads_data_crlf, reads_trailers,
}

-- What the callbacks call on the stream when they are run, each with what it runs in turn. A
-- callback of `pause_reading` or `resume_reading` calls nothing on the stream.
unfoldable pub answer : (Event → List Call) → List Event × BodyStream → List Event × BodyStream
answer react ([], s) = ([], s)
answer react (e ∷ es, s) =
    let (more, s') = run (react e) s in
    let (rest, last) = answer react (es, s') in (e ∷ (more ++ rest), last)

-- What one round of a loop does: it returns a status, or it goes on.
pub data StreamRound : Type 0 where
  stops : HttpParseStatus → List Event → HttpContext → Buffer → StreamRound
  goes_on : List Event → HttpContext → Buffer → StreamRound

-- The bytes that a round hands to the stream.
abbrev pub chunk_of : HttpContext → Buffer → Bytes
chunk_of c b = take (min c.streaming_body_remaining (readable_bytes b)) (contents b)

-- One round of `process_fixed_streaming_body`, the code behind the loop with it.
unfoldable pub fixed_round : (Event → List Call) → HttpContext → Buffer → StreamRound
fixed_round react c b =
    let n = min c.streaming_body_remaining (readable_bytes b) in
    let (es, s) = answer react (on_data (chunk_of c b) c.body_stream) in
    let (ends, ended) = answer react (on_complete c.body_stream) in
    if ltb 0 c.streaming_body_remaining && ltb 0 (readable_bytes b)
    then if c.body_stream.reading_paused
      then stops incomplete [] c b
      else goes_on es
          (record c { body_stream = s; streaming_body_remaining = c.streaming_body_remaining - n })
          (retrieve n b)
    else if ltb 0 c.streaming_body_remaining
    then stops incomplete [] c b
    else stops complete ends (record c { body_stream = ended; streaming_body_active = false }) b

-- The size on a chunk's line; what stands behind a semicolon is not looked at.
unfoldable pub stream_line_size : Bytes → Option ℕ
stream_line_size line = elim (find b';' line) [
  | none ↦ parse_hex_u64 line
  | some semicolon ↦ parse_hex_u64 (take semicolon line)
]

-- A chunk of `size` bytes, if the limit leaves room for it.
unfoldable pub stream_begin_chunk : ℕ → ℕ → HttpContext → Buffer → StreamRound
stream_begin_chunk size crlf c b =
    if ltb k_max_streaming_body size
      || ltb (k_max_streaming_body - size) c.streaming_decoded_body_bytes
    then stops error [] c b
    else goes_on []
        (record c {
          streaming_body_remaining = size;
          streaming_chunk_state = if size == 0 then reads_trailers else reads_data;
        })
        (retrieve_until (crlf + 2) b)

-- `case StreamingChunkState::size`.
unfoldable pub stream_size_round : HttpContext → Buffer → StreamRound
stream_size_round c b = elim (find_crlf b) [
  | none ↦ stops incomplete [] c b
  | some crlf ↦ elim (stream_line_size (take crlf (contents b))) [
    | none ↦ stops error [] c b
    | some size ↦ stream_begin_chunk size crlf c b
  ]
]

-- `case StreamingChunkState::data`.
unfoldable pub stream_data_round : (Event → List Call) → HttpContext → Buffer → StreamRound
stream_data_round react c b =
    let n = min c.streaming_body_remaining (readable_bytes b) in
    let (es, s) = answer react (on_data (chunk_of c b) c.body_stream) in
    if c.body_stream.reading_paused || readable_bytes b == 0
    then stops incomplete [] c b
    else goes_on es
        (record c {
          body_stream = s;
          streaming_body_remaining = c.streaming_body_remaining - n;
          streaming_decoded_body_bytes = (c.streaming_decoded_body_bytes + n) % 2 ^ 64;
          streaming_chunk_state =
              if c.streaming_body_remaining - n == 0 then reads_data_crlf else reads_data;
        })
        (retrieve n b)

-- `case StreamingChunkState::data_crlf`.
unfoldable pub stream_crlf_round : HttpContext → Buffer → StreamRound
stream_crlf_round c b =
    let unread = contents b in
    if ltb (readable_bytes b) 2
    then stops incomplete [] c b
    else if not (get_or unread 0 0 == b'\r') || not (get_or unread 1 0 == b'\n')
    then stops error [] c b
    else goes_on [] (record c { streaming_chunk_state = reads_size }) (retrieve 2 b)

-- A trailer line of `line_size` bytes, counted with its CR LF in `counted`.
unfoldable pub stream_trailer_line : (Event → List Call) → ℕ → HttpContext → Buffer → StreamRound
stream_trailer_line react line_size counted b =
    let (ends, ended) = answer react (on_complete counted.body_stream) in
    if ltb k_max_streaming_trailers counted.streaming_trailer_bytes
    then stops error [] counted b
    else if line_size == 0
    then stops complete ends
        (record counted {
          body_stream = ended;
          streaming_body_active = false;
          streaming_body_mode = no_mode;
        })
        (retrieve_until (line_size + 2) b)
    else if valid_trailer_line (take line_size (contents b))
    then goes_on [] counted (retrieve_until (line_size + 2) b)
    else stops error [] counted b

-- `case StreamingChunkState::trailers`.
unfoldable pub stream_trailers_round : (Event → List Call) → HttpContext → Buffer → StreamRound
stream_trailers_round react c b = elim (find_crlf b) [
  | none ↦ stops incomplete [] c b
  | some line_size ↦
      stream_trailer_line react line_size
        (record c {
          streaming_trailer_bytes = (c.streaming_trailer_bytes + (line_size + 2)) % 2 ^ 64;
        })
        b
]

-- One round of `process_chunked_streaming_body`: the switch.
unfoldable pub stream_round_in :
    StreamingChunkState → (Event → List Call) → HttpContext → Buffer → StreamRound
stream_round_in reads_size react c b = stream_size_round c b
stream_round_in reads_data react c b = stream_data_round react c b
stream_round_in reads_data_crlf react c b = stream_crlf_round c b
stream_round_in reads_trailers react c b = stream_trailers_round react c b

abbrev pub chunked_round : (Event → List Call) → HttpContext → Buffer → StreamRound
chunked_round react c b = stream_round_in c.streaming_chunk_state react c b

pub record Processed : Type 0 where
  pub status : HttpParseStatus
  pub events : List Event
  pub context : HttpContext
  pub buffer : Buffer

abbrev pub behind : List Event → Option Processed → Option Processed
behind es none = none
behind es (some r) = some (record r { events = es ++ r.events })

-- The loop. `none` says that the fuel ran out.
unfoldable pub stream_loop :
    (HttpContext → Buffer → StreamRound) → ℕ → HttpContext → Buffer → Option Processed
stream_loop round zero c b = none
stream_loop round (suc fuel) c b = elim (round c b) [
  | stops s es d e ↦ some (record { status = s; events = es; context = d; buffer = e })
  | goes_on es d e ↦ behind es (stream_loop round fuel d e)
]

-- Every round takes a byte at least, but for one that leaves `reads_data` with no byte to read.
unfoldable pub process_streaming_body :
    (Event → List Call) → HttpContext → Buffer → Option Processed
process_streaming_body react c b =
    if c.body_stream.reading_paused
    then some (record { status = incomplete; events = []; context = c; buffer = b })
    else elim c.streaming_body_mode [
      | chunked_body ↦ stream_loop (chunked_round react) (readable_bytes b + 2) c b
      | _ ↦ stream_loop (fixed_round react) (readable_bytes b + 2) c b
    ]

unfoldable pub cancel_streaming_body : (Event → List Call) → HttpContext → List Event × HttpContext
cancel_streaming_body react c =
    let (es, s) = answer react (on_cancel c.body_stream) in
    if not c.streaming_body_active then ([], c) else (
      es,
      record c {
        body_stream = s;
        streaming_body_active = false;
        streaming_body_mode = no_mode;
        streaming_chunk_state = reads_size;
        streaming_body_remaining = 0;
        streaming_decoded_body_bytes = 0;
        streaming_trailer_bytes = 0;
      },
    )
