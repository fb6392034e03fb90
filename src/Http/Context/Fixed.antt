-- ===== src/Http/Context/Fixed.antt =====
-- A body of a known length: every byte of it goes to the stream, and none of what follows.
use oklib.Common.{
  length, length-append, length-take, take-append-drop, ℕ, zero, suc, ◌+◌, ◌-◌, ◌≤◌, min, ◌≡◌, refl,
  sym, ap, subst, ◌∙◌, ◌⊎◌, inl, inr, true, false, Option, none, some, List, [], ◌++◌, append_assoc,
  arith,
}
use oklib.Buffer.{readable_bytes, contents, retrieve, Buffer}
use oklib.Buffer.Invariant.{length-contents, retrieve-IsValid, IsValid}
use oklib.Http.Parser.{HttpParseStatus, incomplete, complete}
use oklib.Http.BodyStream.{on_data, on_complete, BodyStream, Event, Call}
use oklib.Http.Context.{HttpContext, fixed_length}
use oklib.Http.Context.Streaming.{
  answer, chunk_of, fixed_round, behind, stream_loop, process_streaming_body, Processed,
  StreamRound, stops, goes_on,
}
use oklib.Http.Context.Delivery.{
  data_of, Flows, data_of-append, deliver-Listening, complete-Listening, Listening,
}
use oklib.Buffer.Contents.{contents-retrieve}
use oklib.Http.Context.Progress.{process_streaming_body_total}

-- How a call ends: the body is complete, or the reading is paused, or there is nothing to read.
pub data Ending : HttpParseStatus → HttpContext → Buffer → Type 0 where
  whole_body :
      {c : HttpContext} {b : Buffer}
      → c.streaming_body_remaining ≡ 0
      → c.streaming_body_active ≡ false
      → c.body_stream.completed ≡ true
      → Ending complete c b
  reading_stopped :
      {c : HttpContext} {b : Buffer}
      → c.body_stream.reading_paused ≡ true
      → Listening c.body_stream
      → Ending incomplete c b
  all_read :
      {c : HttpContext} {b : Buffer}
      → 1 ≤ c.streaming_body_remaining
      → readable_bytes b ≡ 0
      → Listening c.body_stream
      → Ending incomplete c b

-- The bytes given to the stream and the unread bytes make up what was unread, and what is left to
-- read of the body is less by the bytes given.
pub record Shared (c : HttpContext) (b : Buffer) (es : List Event) (d : HttpContext) (e : Buffer)
    : Type 0 where
  pub bytes : data_of es ++ contents e ≡ contents b
  pub counted : length (data_of es) + d.streaming_body_remaining ≡ c.streaming_body_remaining

abbrev pub Rightly : HttpContext → Buffer → StreamRound → Type 0
Rightly c b (stops s es d e) = Shared c b es d e × Ending s d e
Rightly c b (goes_on es d e) = Shared c b es d e × IsValid e × Listening d.body_stream

-- What the round is on each of its branches.
abbrev given : (Event → List Call) → HttpContext → Buffer → List Event × BodyStream
given react c b = answer react (on_data (chunk_of c b) c.body_stream)

abbrev taken : HttpContext → Buffer → ℕ
taken c b = min c.streaming_body_remaining (readable_bytes b)

abbrev after_data : (Event → List Call) → HttpContext → Buffer → HttpContext
after_data react c b = record c {
  body_stream = (given react c b).1;
  streaming_body_remaining = c.streaming_body_remaining - taken c b;
}

abbrev after_end : (Event → List Call) → HttpContext → HttpContext
after_end react c = record c {
  body_stream = (answer react (on_complete c.body_stream)).1;
  streaming_body_active = false;
}

fixed_round-cases :
    (react : Event → List Call) (c : HttpContext) (b : Buffer)
    → ((c.body_stream.reading_paused ≡ true) × (fixed_round react c b ≡ stops incomplete [] c b))
      ⊎ ((1 ≤ c.streaming_body_remaining)
          × (readable_bytes b ≡ 0)
          × (fixed_round react c b ≡ stops incomplete [] c b))
      ⊎ (fixed_round react c b
          ≡ goes_on (given react c b).0 (after_data react c b) (retrieve (taken c b) b))
      ⊎ ((c.streaming_body_remaining ≡ 0)
          × (fixed_round react c b
              ≡ stops complete (answer react (on_complete c.body_stream)).0 (after_end react c) b))
unfolding fixed_round
fixed_round-cases react c b = ground arith

length-chunk_of : (c : HttpContext) (b : Buffer) → IsValid b → length (chunk_of c b) ≡ taken c b
length-chunk_of c b v = omega (arith, length-take (taken c b) (contents b), length-contents b v)

-- A round that hands bytes to the stream.
pub data-Shared :
    (react : Event → List Call) (c : HttpContext) (b : Buffer)
    → Flows react
    → Listening c.body_stream
    → IsValid b
    → (d : HttpContext) → d.streaming_body_remaining ≡ c.streaming_body_remaining - taken c b
    → Shared c b (given react c b).0 d (retrieve (taken c b) b)
data-Shared react c b f l v d left =
    let (whole, _) = deliver-Listening react (chunk_of c b) c.body_stream f l in
    record {
      bytes =
          rw (whole, contents-retrieve (taken c b) b v) (take-append-drop (taken c b) (contents b));
      counted = omega (arith, ap length whole, length-chunk_of c b v);
    }

fixed_round-Rightly :
    (react : Event → List Call) (c : HttpContext) (b : Buffer)
    → Flows react
    → Listening c.body_stream
    → IsValid b
    → Rightly c b (fixed_round react c b)
fixed_round-Rightly react c b f l v = elim (fixed_round-cases react c b) [
  | inl (p, e) ↦
      subst (Rightly c b) (sym e)
        (record { bytes = refl; counted = omega arith }, reading_stopped p l)
  | inr (inl (p, q, e)) ↦
      subst (Rightly c b) (sym e) (record { bytes = refl; counted = omega arith }, all_read p q l)
  | inr (inr (inl e)) ↦ subst (Rightly c b) (sym e) (
    data-Shared react c b f l v (after_data react c b) refl,
    retrieve-IsValid (taken c b) b v,
    (deliver-Listening react (chunk_of c b) c.body_stream f l).1,
  )
  | inr (inr (inr (p, e))) ↦
      let ended = complete-Listening react c.body_stream f l in
      subst (Rightly c b) (sym e) (
        record {
          bytes = ap (λ xs. xs ++ contents b) ended.0;
          counted = omega (arith, ap length ended.0);
        },
        whole_body p refl ended.1,
      )
]

Shared-trans :
    {c d k : HttpContext} {b e a : Buffer} {es fs : List Event}
    → Shared c b es d e
    → Shared d e fs k a
    → Shared c b (es ++ fs) k a
Shared-trans {a = a} {es = es} {fs = fs} s t = record {
  bytes =
      ap (λ xs. xs ++ contents a) (data_of-append es fs)
      ∙ append_assoc (data_of es) (data_of fs) (contents a)
      ∙ ap (◌++◌ (data_of es)) t.bytes
      ∙ s.bytes;
  counted = omega (
    arith,
    s.counted,
    t.counted,
    ap length (data_of-append es fs),
    length-append (data_of es) (data_of fs),
  );
}

-- What the loop has done, if it has returned.
abbrev Right : HttpContext → Buffer → Option Processed → Type 0
Right c b none = Unit
Right c b (some r) = Shared c b r.events r.context r.buffer × Ending r.status r.context r.buffer

behind-Right :
    (c d : HttpContext) (b e : Buffer) (es : List Event) (o : Option Processed)
    → Shared c b es d e
    → Right d e o
    → Right c b (behind es o)
behind-Right c d b e es none s r = tt
behind-Right c d b e es (some r) s (t, h) = (Shared-trans s t, h)

module _ (react : Event → List Call) (f : Flows react) where
  after_round :
      (fuel : ℕ) (c : HttpContext) (b : Buffer) (r : StreamRound)
      → ((d : HttpContext) (e : Buffer)
          → Listening d.body_stream
          → IsValid e
          → Right d e (stream_loop (fixed_round react) fuel d e))
      → fixed_round react c b ≡ r
      → Rightly c b r
      → Right c b (stream_loop (fixed_round react) (suc fuel) c b)
  unfolding stream_loop
  after_round fuel c b (stops s es d e) later eq h = rw (eq, stream_loop) h
  after_round fuel c b (goes_on es d e) later eq (s, v, l) =
      rw (eq, stream_loop)
        (behind-Right c d b e es (stream_loop (fixed_round react) fuel d e) s (later d e l v))

  fixed_loop-Right :
      (fuel : ℕ) (c : HttpContext) (b : Buffer)
      → Listening c.body_stream
      → IsValid b
      → Right c b (stream_loop (fixed_round react) fuel c b)
  unfolding stream_loop
  fixed_loop-Right zero c b l v = tt
  fixed_loop-Right (suc fuel) c b l v =
      after_round fuel c b (fixed_round react c b) (fixed_loop-Right fuel) refl
        (fixed_round-Rightly react c b f l v)

process_fixed-cases :
    (react : Event → List Call) (c : HttpContext) (b : Buffer)
    → c.streaming_body_mode ≡ fixed_length
    → ((c.body_stream.reading_paused ≡ true)
        × (process_streaming_body react c b
            ≡ some (record { status = incomplete; events = []; context = c; buffer = b })))
      ⊎ (process_streaming_body react c b
          ≡ stream_loop (fixed_round react) (readable_bytes b + 2) c b)
unfolding process_streaming_body
process_fixed-cases react c b m = ground arith

-- A body of a known length, on a valid buffer, on a stream that has a data callback and has not
-- ended, with callbacks that do no more to it than to pause it and resume it. A call returns, and
-- the bytes given to the data callback, with the unread bytes that it leaves behind them, are the
-- bytes that were unread; what is left of the body is less by the bytes given. It is `complete`
-- only with nothing left of the body and the stream completed, and `incomplete` only while the
-- reading is paused, or with no byte unread and some of the body left.
pub process-fixed :
    (react : Event → List Call) (c : HttpContext) (b : Buffer)
    → Flows react
    → Listening c.body_stream
    → IsValid b
    → c.streaming_body_mode ≡ fixed_length
    → (r : Processed) × (process_streaming_body react c b ≡ some r)
      × (data_of r.events ++ contents r.buffer ≡ contents b)
      × (length (data_of r.events) + r.context.streaming_body_remaining
          ≡ c.streaming_body_remaining)
      × Ending r.status r.context r.buffer
process-fixed react c b f l v m =
    let (r, e, w, _) = process_streaming_body_total react c b v in
    let (s, h) = subst (Right c b) e right in (r, e, s.bytes, s.counted, h)
  where
    right : Right c b (process_streaming_body react c b)
    right = elim (process_fixed-cases react c b m) [
      | inl (p, e) ↦
          subst (Right c b) (sym e)
            (record { bytes = refl; counted = omega arith }, reading_stopped p l)
      | inr e ↦ subst (Right c b) (sym e) (fixed_loop-Right react f (readable_bytes b + 2) c b l v)
    ]
