-- ===== src/Http/Context/Limits.antt =====
-- The limit of a chunked body, over all the calls on it.
use oklib.Common.{
  length, Bytes, ℕ, zero, suc, ◌+◌, ◌≤◌, ◌≡◌, refl, sym, ap, subst, inl, inr, Option, none, some,
  List, [], ◌∷◌, arith,
}
use oklib.Buffer.{readable_bytes, append, Buffer}
use oklib.Buffer.Invariant.{append-IsValid, IsValid}
use oklib.Http.Parser.{HttpParseStatus, incomplete, complete, error}
use oklib.Http.BodyStream.{BodyStream, Event, Call}
use oklib.Http.Context.{k_max_streaming_body, start_streaming_chunked_body, HttpContext}
use oklib.Http.Context.Streaming.{
  chunked_round, behind, stream_loop, process_streaming_body, Processed, StreamRound, stops,
  goes_on,
}
use oklib.Http.Context.Delivery.{data_of, Flows, Listening}
use oklib.Http.Context.Progress.{process_streaming_body_total}
use oklib.Http.Context.Chunked.Pieces.{process_chunked-cases}
use oklib.Http.Context.Chunked.Whole.{feed}
use oklib.Http.Context.Counts.{
  Goes, Limited, unchanged-Counts, round-Limited, Counts-trans, Reading, Counts,
}

-- What a loop has done, if it has returned.
abbrev Limits : HttpContext → Option Processed → Type 0
Limits c none = Unit
Limits c (some r) = Counts c r.events r.context × Goes r.status r.context

behind-Limits :
    (c d : HttpContext) (es : List Event) (o : Option Processed)
    → Counts c es d
    → Limits d o
    → Limits c (behind es o)
behind-Limits c d es none x h = tt
behind-Limits c d es (some r) x (y, g) = (Counts-trans c d r.context es r.events x y, g)

module _ (react : Event → List Call) (f : Flows react) where
  after_round :
      (fuel : ℕ) (c : HttpContext) (b : Buffer) (r : StreamRound)
      → ((d : HttpContext) (e : Buffer)
          → Reading d
          → IsValid e
          → Limits d (stream_loop (chunked_round react) fuel d e))
      → chunked_round react c b ≡ r
      → Limited c r
      → Limits c (stream_loop (chunked_round react) (suc fuel) c b)
  unfolding stream_loop
  after_round fuel c b (stops s es d e) later eq h = rw (eq, stream_loop) h
  after_round fuel c b (goes_on es d e) later eq (x, r, v) =
      rw (eq, stream_loop) (behind-Limits c d es _ x (later d e r v))

  loop-Limits :
      (fuel : ℕ) (c : HttpContext) (b : Buffer)
      → Reading c
      → IsValid b
      → Limits c (stream_loop (chunked_round react) fuel c b)
  unfolding stream_loop
  loop-Limits zero c b r v = tt
  loop-Limits (suc fuel) c b r v =
      after_round fuel c b (chunked_round react c b) (loop-Limits fuel) refl
        (round-Limited c.streaming_chunk_state react c b f r v)

  process-Limits :
      (c : HttpContext) (b : Buffer)
      → Reading c
      → IsValid b
      → Limits c (process_streaming_body react c b)
  process-Limits c b r v = elim (process_chunked-cases react c b r.mode) [
    | inl (p, e) ↦ subst (Limits c) (sym e) (unchanged-Counts c r, r)
    | inr e ↦ subst (Limits c) (sym e) (loop-Limits (readable_bytes b + 2) c b r v)
  ]

  after_call :
      (piece : Bytes) (pieces : List Bytes)
      → ((d : HttpContext) (e : Buffer) → Reading d → IsValid e → Limits d (feed react pieces d e))
      → (s : HttpParseStatus) (c d : HttpContext) (b e : Buffer) (es : List Event)
      → process_streaming_body react c (append piece b)
        ≡ some (record { status = s; events = es; context = d; buffer = e })
      → Counts c es d × Goes s d
      → IsValid e
      → Limits c (feed react (piece ∷ pieces) c b)
  unfolding feed
  after_call piece pieces later incomplete c d b e es eq (x, r) v =
      rw (eq, feed) (behind-Limits c d es (feed react pieces d e) x (later d e r v))
  after_call piece pieces later complete c d b e es eq h v = rw (eq, feed) h
  after_call piece pieces later error c d b e es eq h v = rw (eq, feed) h

  feed-Limits :
      (pieces : List Bytes) (c : HttpContext) (b : Buffer)
      → Reading c
      → IsValid b
      → Limits c (feed react pieces c b)
  unfolding feed
  feed-Limits [] c b r v = (unchanged-Counts c r, r)
  feed-Limits (piece ∷ pieces) c b r v =
      let w = append-IsValid piece b v in
      let (p, e, valid, _) = process_streaming_body_total react c (append piece b) w in
      after_call piece pieces (feed-Limits pieces) p.status c p.context b p.buffer p.events e
        (subst (Limits c) e (process-Limits c (append piece b) r w)) valid

-- The calls on pieces of anything return.
module _ (react : Event → List Call) where
  after_total :
      (piece : Bytes) (pieces : List Bytes)
      → ((d : HttpContext) (e : Buffer)
          → IsValid e
          → (r : Processed) × (feed react pieces d e ≡ some r))
      → (s : HttpParseStatus) (c d : HttpContext) (b e : Buffer) (es : List Event)
      → process_streaming_body react c (append piece b)
        ≡ some (record { status = s; events = es; context = d; buffer = e })
      → IsValid e
      → (r : Processed) × (feed react (piece ∷ pieces) c b ≡ some r)
  unfolding feed
  after_total piece pieces later incomplete c d b e es eq v =
      let (r, found) = later d e v in rw (eq, feed) (_, ap (behind es) found)
  after_total piece pieces later complete c d b e es eq v = rw (eq, feed) (_, refl)
  after_total piece pieces later error c d b e es eq v = rw (eq, feed) (_, refl)

  feed_total :
      (pieces : List Bytes) (c : HttpContext) (b : Buffer)
      → IsValid b
      → (r : Processed) × (feed react pieces c b ≡ some r)
  unfolding feed
  feed_total [] c b v = (_, refl)
  feed_total (piece ∷ pieces) c b v =
      let (p, e, valid, _) =
        process_streaming_body_total react c (append piece b) (append-IsValid piece b v) in
      after_total piece pieces (feed_total pieces) p.status c p.context b p.buffer p.events e valid

-- Whatever bytes arrive for a chunked body, in whatever pieces, well formed or not: the calls
-- return, and the data callback has been given as many bytes as the context has counted, and 8 MiB
-- at most. The buffer is valid, and the stream has a data callback and has not ended, with
-- callbacks that do no more to it than to pause it and resume it.
pub feed_limit :
    (react : Event → List Call) (s : BodyStream) (c : HttpContext) (b : Buffer)
    (pieces : List Bytes)
    → Flows react
    → Listening s
    → IsValid b
    → (r : Processed) × (feed react pieces (start_streaming_chunked_body s c) b ≡ some r)
      × (length (data_of r.events) ≡ r.context.streaming_decoded_body_bytes)
      × (length (data_of r.events) ≤ k_max_streaming_body)
unfolding start_streaming_chunked_body
feed_limit react s c b pieces f l v =
    let start = start_streaming_chunked_body s c in
    let (r, e) = feed_total react pieces start b v in
    let (x, _) = subst (Limits start) e (
      feed-Limits react f pieces start b
        (record { listening = l; mode = refl; limited = omega arith }) v) in
    (r, e, omega (arith, x.counted), omega (arith, x.counted, x.fits))
