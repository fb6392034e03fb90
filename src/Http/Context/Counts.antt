-- ===== src/Http/Context/Counts.antt =====
-- The rounds of a chunked body, whatever bytes arrive: what is delivered is counted, and with what
-- is left of the chunk it stays within the limit.
use oklib.Common.{
  ltb, ◌==◌, Bool-cases, Option-cases, length, get_or, take, length-append, length-take, ℕ, ◌+◌,
  ◌-◌, ◌%◌, ◌^◌, ◌≤◌, ◌≡◌, sym, ap, subst, inl, inr, not, ◌||◌, List, [], ◌++◌, arith,
}
use oklib.Buffer.{readable_bytes, contents, find_crlf, retrieve_until, Buffer}
use oklib.Buffer.Invariant.{length-contents, retrieve-IsValid, IsValid}
use oklib.Buffer.Crlf.{retrieve_line}
use oklib.Http.Parser.{HttpParseStatus, incomplete, complete, error}
use oklib.Http.BodyStream.{Event, Call}
use oklib.Http.Context.{
  k_max_streaming_trailers, k_max_streaming_body, valid_trailer_line, HttpContext, chunked_body,
  StreamingChunkState, reads_size, reads_data, reads_data_crlf, reads_trailers,
}
use oklib.Http.Context.Streaming.{
  chunk_of, stream_line_size, stream_begin_chunk, stream_size_round, stream_data_round,
  stream_crlf_round, stream_trailer_line, stream_trailers_round, stream_round_in, StreamRound,
  stops, goes_on,
}
use oklib.Http.Context.Delivery.{
  data_of, Flows, data_of-append, deliver-Listening, complete-Listening, Listening,
}
use oklib.Http.Context.Chunked.Rounds.{taken, data_cases}

-- A chunked body that is being read, within the limit.
pub record Reading (c : HttpContext) : Type 0 where
  pub listening : Listening c.body_stream
  pub mode : c.streaming_body_mode ≡ chunked_body
  pub limited : c.streaming_decoded_body_bytes + c.streaming_body_remaining ≤ k_max_streaming_body

-- What is delivered is counted, and what is still announced fits the limit.
pub record Counts (c : HttpContext) (es : List Event) (d : HttpContext) : Type 0 where
  pub counted :
      length (data_of es) + c.streaming_decoded_body_bytes ≡ d.streaming_decoded_body_bytes
  pub fits : d.streaming_decoded_body_bytes + d.streaming_body_remaining ≤ k_max_streaming_body

-- Behind a status for more bytes the reading goes on.
abbrev pub Goes : HttpParseStatus → HttpContext → Type 0
Goes incomplete d = Reading d
Goes _ d = Unit

abbrev pub Limited : HttpContext → StreamRound → Type 0
Limited c (stops s es d e) = Counts c es d × Goes s d
Limited c (goes_on es d e) = Counts c es d × Reading d × IsValid e

pub unchanged-Counts : (c : HttpContext) → Reading c → Counts c [] c
unchanged-Counts c r = record { counted = omega arith; fits = r.limited }

begin_chunk-Limited :
    (size crlf : ℕ) (c : HttpContext) (b : Buffer)
    → Reading c
    → IsValid (retrieve_until (crlf + 2) b)
    → Limited c (stream_begin_chunk size crlf c b)
unfolding stream_begin_chunk
begin_chunk-Limited size crlf c b r v =
    elim (Bool-cases (
      ltb k_max_streaming_body size
      || ltb (k_max_streaming_body - size) c.streaming_decoded_body_bytes)) [
        | inl e ↦ rw e (unchanged-Counts c r, tt)
        | inr e ↦ rw e (
          record { counted = omega arith; fits = ground arith },
          record { listening = r.listening; mode = r.mode; limited = ground arith },
          v,
        )
      ]

size-Limited :
    (c : HttpContext) (b : Buffer) → Reading c → IsValid b → Limited c (stream_size_round c b)
unfolding stream_size_round
size-Limited c b r v = elim (Option-cases (find_crlf b)) [
  | inl e ↦ rw (e, stream_size_round) (unchanged-Counts c r, r)
  | inr (i, e) ↦ elim (Option-cases (stream_line_size (take i (contents b)))) [
    | inl l ↦ rw (e, l, stream_size_round) (unchanged-Counts c r, tt)
    | inr (size, l) ↦
        rw (e, l, stream_size_round) (begin_chunk-Limited size i c b r (retrieve_line b v e).0)
  ]
]

data-Limited :
    (react : Event → List Call) (c : HttpContext) (b : Buffer)
    → Flows react
    → Reading c
    → IsValid b
    → Limited c (stream_data_round react c b)
data-Limited react c b f r v = elim (data_cases react c b) [
  | inl (h, e) ↦ subst (Limited c) (sym e) (unchanged-Counts c r, r)
  | inr (inl (h, e)) ↦ subst (Limited c) (sym e) (unchanged-Counts c r, r)
  | inr (inr e) ↦
      let (told, listening) = deliver-Listening react (chunk_of c b) c.body_stream f r.listening in
      let told_length = ap length told in
      let measured = length-take (taken c b) (contents b) in
      let len = length-contents b v in
      let limit = r.limited in
      subst (Limited c) (sym e) (
        record { counted = ground arith; fits = ground arith },
        record { listening = listening; mode = r.mode; limited = ground arith },
        retrieve-IsValid (taken c b) b v,
      )
]

crlf-Limited :
    (c : HttpContext) (b : Buffer) → Reading c → IsValid b → Limited c (stream_crlf_round c b)
unfolding stream_crlf_round
crlf-Limited c b r v = elim (Bool-cases (ltb (readable_bytes b) 2)) [
  | inl e ↦ rw e (unchanged-Counts c r, r)
  | inr e ↦
      elim (Bool-cases
        (not (get_or (contents b) 0 0 == b'\r') || not (get_or (contents b) 1 0 == b'\n'))) [
          | inl k ↦ rw (e, k) (unchanged-Counts c r, tt)
          | inr k ↦
              rw (e, k)
                (
                  record { counted = omega arith; fits = r.limited },
                  record { listening = r.listening; mode = r.mode; limited = r.limited },
                  retrieve-IsValid 2 b v,
                )
        ]
]

trailer_line-Limited :
    (react : Event → List Call) (n : ℕ) (c : HttpContext) (b : Buffer)
    → Flows react
    → Reading c
    → IsValid (retrieve_until (n + 2) b)
    → Limited c (stream_trailer_line react n c b)
unfolding stream_trailer_line
trailer_line-Limited react n c b f r v =
    let no_data = ap length (complete-Listening react c.body_stream f r.listening).0 in
    elim (Bool-cases (ltb k_max_streaming_trailers c.streaming_trailer_bytes)) [
      | inl e ↦ rw e (unchanged-Counts c r, tt)
      | inr e ↦ elim (Bool-cases (n == 0)) [
        | inl z ↦ rw (e, z) (record { counted = omega arith; fits = r.limited }, tt)
        | inr z ↦ elim (Bool-cases (valid_trailer_line (take n (contents b)))) [
          | inl k ↦ rw (e, z, k) (unchanged-Counts c r, r, v)
          | inr k ↦ rw (e, z, k) (unchanged-Counts c r, tt)
        ]
      ]
    ]

trailers-Limited :
    (react : Event → List Call) (c : HttpContext) (b : Buffer)
    → Flows react
    → Reading c
    → IsValid b
    → Limited c (stream_trailers_round react c b)
unfolding stream_trailers_round
trailers-Limited react c b f r v = elim (Option-cases (find_crlf b)) [
  | inl e ↦ rw (e, stream_trailers_round) (unchanged-Counts c r, r)
  | inr (i, e) ↦
      rw (e, stream_trailers_round)
        (uncounted _ _ (
          trailer_line-Limited react i
            (record c { streaming_trailer_bytes = (c.streaming_trailer_bytes + (i + 2)) % 2 ^ 64 })
            b f (record { listening = r.listening; mode = r.mode; limited = r.limited })
            (retrieve_line b v e).0))
]
  where
    -- The count of the trailers plays no part.
    uncounted :
        (n : ℕ) (x : StreamRound)
        → Limited (record c { streaming_trailer_bytes = n }) x
        → Limited c x
    uncounted n (stops incomplete es d e) l =
        (record { counted = l.0.counted; fits = l.0.fits }, l.1)
    uncounted n (stops complete es d e) l = (record { counted = l.0.counted; fits = l.0.fits }, l.1)
    uncounted n (stops error es d e) l = (record { counted = l.0.counted; fits = l.0.fits }, l.1)
    uncounted n (goes_on es d e) l = (record { counted = l.0.counted; fits = l.0.fits }, l.1, l.2)

pub round-Limited :
    (s : StreamingChunkState) (react : Event → List Call) (c : HttpContext) (b : Buffer)
    → Flows react
    → Reading c
    → IsValid b
    → Limited c (stream_round_in s react c b)
unfolding stream_round_in
round-Limited reads_size react c b f r v = size-Limited c b r v
round-Limited reads_data react c b f r v = data-Limited react c b f r v
round-Limited reads_data_crlf react c b f r v = crlf-Limited c b r v
round-Limited reads_trailers react c b f r v = trailers-Limited react c b f r v

pub Counts-trans :
    (c d k : HttpContext) (es fs : List Event)
    → Counts c es d
    → Counts d fs k
    → Counts c (es ++ fs) k
Counts-trans c d k es fs x y = record {
  counted = omega (
    arith,
    x.counted,
    y.counted,
    ap length (data_of-append es fs),
    length-append (data_of es) (data_of fs),
  );
  fits = y.fits;
}
