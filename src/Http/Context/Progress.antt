-- ===== src/Http/Context/Progress.antt =====
-- The loops over a body that arrives end: every round shrinks the bytes that are left.
use oklib.Common.{
  Bool-cases, Option-cases, ℕ, zero, suc, ◌+◌, ◌≤◌, ◌<◌, min, ◌≡◌, refl, ap, inl, inr, Option, some,
  List, ◌++◌, arith,
}
use oklib.Buffer.{readable_bytes, find_crlf, Buffer}
use oklib.Buffer.Invariant.{retrieve-IsValid, IsValid}
use oklib.Buffer.Contents.{readable-retrieve}
use oklib.Buffer.Crlf.{retrieve_line}
use oklib.Http.BodyStream.{Event, Call}
use oklib.Http.Context.{
  HttpContext, StreamingBodyMode, no_mode, fixed_length, chunked_body, StreamingChunkState,
  reads_size, reads_data, reads_data_crlf, reads_trailers,
}
use oklib.Http.Context.Streaming.{
  fixed_round, stream_begin_chunk, stream_size_round, stream_data_round, stream_crlf_round,
  stream_trailer_line, stream_trailers_round, stream_round_in, chunked_round, behind, stream_loop,
  process_streaming_body, Processed, StreamRound, stops, goes_on,
}

-- The bytes that are left, and one more where a round may take none.
abbrev pub measure : HttpContext → Buffer → ℕ
measure c b = readable_bytes b + elim c.streaming_chunk_state [ reads_data ↦ 1 | _ ↦ 0 ]

abbrev pub Smaller : HttpContext → Buffer → StreamRound → Type 0
Smaller c b (stops s es d e) = IsValid e × (readable_bytes e ≤ readable_bytes b)
Smaller c b (goes_on es d e) =
    IsValid e × (readable_bytes e ≤ readable_bytes b) × (measure d e < measure c b)

pub Shrinking : (HttpContext → Buffer → StreamRound) → Type 0
Shrinking round = (c : HttpContext) (b : Buffer) → IsValid b → Smaller c b (round c b)

pub fixed_round-Smaller : (react : Event → List Call) → Shrinking (fixed_round react)
unfolding Shrinking fixed_round
fixed_round-Smaller react c b v =
    let n = min c.streaming_body_remaining (readable_bytes b) in
    ground (arith, retrieve-IsValid n b v, readable-retrieve n b v)

size-Smaller :
    (c : HttpContext) (b : Buffer)
    → IsValid b
    → Smaller
        (record c { streaming_chunk_state = reads_size })
        b
        (stream_size_round (record c { streaming_chunk_state = reads_size }) b)
unfolding stream_size_round stream_begin_chunk
size-Smaller c b v = elim (Option-cases (find_crlf b)) [
  | inl e ↦ rw (e, stream_size_round) (ground arith)
  | inr (i, e) ↦ rw (e, stream_size_round) (ground (arith, retrieve_line b v e))
]

data_crlf-Smaller :
    (c : HttpContext) (b : Buffer)
    → IsValid b
    → Smaller
        (record c { streaming_chunk_state = reads_data_crlf })
        b
        (stream_crlf_round (record c { streaming_chunk_state = reads_data_crlf }) b)
unfolding stream_crlf_round
data_crlf-Smaller c b v = ground (arith, retrieve-IsValid 2 b v, readable-retrieve 2 b v)

data-Smaller :
    (react : Event → List Call) (c : HttpContext) (b : Buffer)
    → IsValid b
    → Smaller
        (record c { streaming_chunk_state = reads_data })
        b
        (stream_data_round react (record c { streaming_chunk_state = reads_data }) b)
unfolding stream_data_round
data-Smaller react c b v =
    let n = min c.streaming_body_remaining (readable_bytes b) in
    ground (arith, retrieve-IsValid n b v, readable-retrieve n b v)

trailers-Smaller :
    (react : Event → List Call) (c : HttpContext) (b : Buffer)
    → IsValid b
    → Smaller
        (record c { streaming_chunk_state = reads_trailers })
        b
        (stream_trailers_round react (record c { streaming_chunk_state = reads_trailers }) b)
unfolding stream_trailers_round stream_trailer_line
trailers-Smaller react c b v = elim (Option-cases (find_crlf b)) [
  | inl e ↦ rw (e, stream_trailers_round) (ground arith)
  | inr (i, e) ↦ rw (e, stream_trailers_round) (ground (arith, retrieve_line b v e))
]

round_in-Smaller :
    (s : StreamingChunkState) (react : Event → List Call) (c : HttpContext) (b : Buffer)
    → IsValid b
    → Smaller
        (record c { streaming_chunk_state = s })
        b
        (stream_round_in s react (record c { streaming_chunk_state = s }) b)
unfolding stream_round_in
round_in-Smaller reads_size react c b v = size-Smaller c b v
round_in-Smaller reads_data react c b v = data-Smaller react c b v
round_in-Smaller reads_data_crlf react c b v = data_crlf-Smaller c b v
round_in-Smaller reads_trailers react c b v = trailers-Smaller react c b v

pub chunked_round-Smaller : (react : Event → List Call) → Shrinking (chunked_round react)
unfolding Shrinking
chunked_round-Smaller react c b v = round_in-Smaller c.streaming_chunk_state react c b v

-- The loop has returned, with a valid buffer that has no more unread bytes.
pub Returned : Buffer → Option Processed → Type 0
Returned b o =
    (r : Processed) × (o ≡ some r) × IsValid r.buffer × (readable_bytes r.buffer ≤ readable_bytes b)

behind-Returned :
    (es : List Event) (b e : Buffer) (o : Option Processed)
    → readable_bytes e ≤ readable_bytes b
    → Returned e o
    → Returned b (behind es o)
unfolding Returned
behind-Returned es b e o h (r, eq, v, le) =
    (record r { events = es ++ r.events }, ap (behind es) eq, v, omega arith)

module _ (round : HttpContext → Buffer → StreamRound) (shrinks : Shrinking round) where
  after_round :
      (fuel : ℕ) (c : HttpContext) (b : Buffer) (r : StreamRound)
      → ((d : HttpContext) (e : Buffer)
          → IsValid e
          → measure d e < fuel
          → Returned e (stream_loop round fuel d e))
      → round c b ≡ r
      → Smaller c b r
      → measure c b < suc fuel
      → Returned b (stream_loop round (suc fuel) c b)
  unfolding stream_loop Returned
  after_round fuel c b (stops s es d e) later eq (v, le) h = rw (eq, stream_loop) (_, refl, v, le)
  after_round fuel c b (goes_on es d e) later eq (v, le, lt) h =
      rw (eq, stream_loop)
        (behind-Returned es b e (stream_loop round fuel d e) le (later d e v (omega arith)))

  pub stream_loop-Returned :
      (fuel : ℕ) (c : HttpContext) (b : Buffer)
      → IsValid b
      → measure c b < fuel
      → Returned b (stream_loop round fuel c b)
  stream_loop-Returned zero c b v h = absurd (omega arith)
  stream_loop-Returned (suc fuel) c b v h =
      after_round fuel c b (round c b) (stream_loop-Returned fuel) refl
        (unfold Shrinking in shrinks c b v) h

-- `process_streaming_body` returns on every valid buffer, in every state of the context and
-- whatever the callbacks do, with a valid buffer that has no more unread bytes than before.
pub process_streaming_body_total :
    (react : Event → List Call) (c : HttpContext) (b : Buffer)
    → IsValid b
    → (r : Processed) × (process_streaming_body react c b ≡ some r)
      × IsValid r.buffer
      × (readable_bytes r.buffer ≤ readable_bytes b)
unfolding process_streaming_body Returned
process_streaming_body_total react c b v = elim (Bool-cases c.body_stream.reading_paused) [
  | inl e ↦ rw e (_, refl, v, omega arith)
  | inr e ↦ rw e (loops c.streaming_body_mode)
]
  where
    fixed : Returned b (stream_loop (fixed_round react) (readable_bytes b + 2) c b)
    fixed =
        stream_loop-Returned (fixed_round react) (fixed_round-Smaller react) (readable_bytes b + 2)
          c b v (ground arith)

    loops :
        (m : StreamingBodyMode)
        → Returned b (elim m [
          | chunked_body ↦ stream_loop (chunked_round react) (readable_bytes b + 2) c b
          | _ ↦ stream_loop (fixed_round react) (readable_bytes b + 2) c b
        ])
    loops no_mode = fixed
    loops fixed_length = fixed
    loops chunked_body =
        stream_loop-Returned (chunked_round react) (chunked_round-Smaller react)
          (readable_bytes b + 2) c b v (ground arith)
