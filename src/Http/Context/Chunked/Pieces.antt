-- ===== src/Http/Context/Chunked/Pieces.antt =====
-- The end of a chunk, the end of the body, and the loop: a body that arrives in pieces is delivered
-- whole.
use oklib.Common.{
  ltb, Bool-cases, Option-cases, length, get_or, drop, Bytes, ℕ, zero, suc, ◌+◌, ◌≤◌, ◌≡◌, refl,
  sym, ap, subst, ◌∙◌, ◌⊎◌, inl, inr, true, false, Option, none, some, List, [], ◌∷◌, ◌++◌,
  append-nil, append_assoc, arith,
}
use oklib.Buffer.{readable_bytes, contents, find_crlf, retrieve, retrieve_until, Buffer}
use oklib.Buffer.Invariant.{length-contents, retrieve-IsValid}
use oklib.Buffer.Contents.{contents-retrieve}
use oklib.Buffer.Crlf.{IsLine-plain}
use oklib.Http.Parser.{incomplete, complete}
use oklib.Http.BodyStream.{on_complete, BodyStream, Event, Call}
use oklib.Http.Parser.Chunks.RoundTrip.{written, joined}
use oklib.Http.Context.{
  HttpContext, no_mode, chunked_body, StreamingChunkState, reads_size, reads_data, reads_data_crlf,
  reads_trailers,
}
use oklib.Http.Context.Streaming.{
  answer, stream_crlf_round, stream_trailer_line, stream_trailers_round, stream_round_in,
  chunked_round, behind, stream_loop, process_streaming_body, Processed, StreamRound, stops,
  goes_on,
}
use oklib.Http.Context.Delivery.{data_of, Flows, data_of-append, complete-Listening}
use oklib.Http.Context.Progress.{process_streaming_body_total}
use oklib.Http.Context.Chunked.{Expects, found_line}
use oklib.Http.Context.Chunked.Segments.{
  Steps, short_of, no_line_yet, size_round-Steps, Track, Outcome, more_to_come, all_delivered,
}
use oklib.Http.Context.Chunked.Rounds.{data_round-Steps}

-- The bytes at the front of what is expected, once they have arrived.
at_front :
    (x y : ℕ) (later bytes future : Bytes)
    → bytes ++ future ≡ x ∷ y ∷ later
    → 2 ≤ length bytes
    → (get_or bytes 0 0 ≡ x) × (get_or bytes 1 0 ≡ y) × (drop 2 bytes ++ future ≡ later)
at_front x y later [] future e h = absurd (omega arith)
at_front x y later (a ∷ []) future e h = absurd (omega arith)
at_front x y later (a ∷ b ∷ bytes) future e h =
    (ap (λ zs. get_or zs 0 0) e, ap (λ zs. get_or zs 1 0) e, ap (drop 2) e)

crlf_round-Steps :
    (c : HttpContext) (b : Buffer) (future stuff rest : Bytes)
    → c.streaming_chunk_state ≡ reads_data_crlf
    → Track c b future stuff rest
    → Steps future stuff rest (stream_crlf_round c b)
crlf_round-Steps c b future stuff rest s t =
    let (chunks, wire, left) = expected in
    let len = length-contents b t.valid in
    elim (Bool-cases (ltb (readable_bytes b) 2)) [
      | inl h ↦ subst (Steps future stuff rest) (sym (crlf_waits c b h)) (
        stuff,
        refl,
        more_to_come t (inr (short_of (contents b) _ future 2 wire (ground arith) (omega arith))),
      )
      | inr h ↦
          let (cr, lf, after) =
            at_front b'\r' b'\n' (written chunks ++ rest) (contents b) future wire (ground arith) in
          subst (Steps future stuff rest) (sym (crlf_goes_on c b h cr lf)) (
            stuff,
            refl,
            record {
              expects =
                  unfold Expects in
                  (chunks, ap (λ xs. xs ++ future) (contents-retrieve 2 b t.valid) ∙ after, left);
              valid = retrieve-IsValid 2 b t.valid;
              listening = t.listening;
              room = t.room;
              no_trailers_yet = t.no_trailers_yet;
              mode = t.mode;
            },
          )
    ]
  where
    expected :
        (chunks : List Bytes) × (contents b ++ future ≡ b'\r' ∷ b'\n' ∷ (written chunks ++ rest))
        × (stuff ≡ joined chunks)
    expected =
        unfold Expects in
        subst (λ x. Expects x c.streaming_body_remaining (contents b ++ future) stuff rest) s
          t.expects

    crlf_waits :
        (c : HttpContext) (b : Buffer)
        → ltb (readable_bytes b) 2 ≡ true
        → stream_crlf_round c b ≡ stops incomplete [] c b
    crlf_waits c b h = unfold stream_crlf_round in ground (arith, h)

    crlf_goes_on :
        (c : HttpContext) (b : Buffer)
        → ltb (readable_bytes b) 2 ≡ false
        → get_or (contents b) 0 0 ≡ b'\r'
        → get_or (contents b) 1 0 ≡ b'\n'
        → stream_crlf_round c b
          ≡ goes_on [] (record c { streaming_chunk_state = reads_size }) (retrieve 2 b)
    crlf_goes_on c b h cr lf = unfold stream_crlf_round in ground (arith, h, cr, lf)

abbrev ended : (Event → List Call) → HttpContext → List Event × BodyStream
ended react c = answer react (on_complete c.body_stream)

last_line :
    (react : Event → List Call) (c : HttpContext) (b : Buffer)
    → find_crlf b ≡ some 0
    → c.streaming_trailer_bytes ≡ 0
    → stream_trailers_round react c b
      ≡ stops complete
          (ended react c).0
          (record c {
            body_stream = (ended react c).1;
            streaming_body_active = false;
            streaming_body_mode = no_mode;
            streaming_trailer_bytes = 2;
          })
          (retrieve_until 2 b)
unfolding stream_trailers_round stream_trailer_line
last_line react c b e z = rw (e, stream_trailers_round) (ground (arith, z))

trailers_round-Steps :
    (react : Event → List Call) (c : HttpContext) (b : Buffer) (future stuff rest : Bytes)
    → Flows react
    → c.streaming_chunk_state ≡ reads_trailers
    → Track c b future stuff rest
    → Steps future stuff rest (stream_trailers_round react c b)
trailers_round-Steps react c b future stuff rest f s t =
    let (wire, none_left) = expected in
    let plain = IsLine-plain [] tt in
    elim (Option-cases (find_crlf b)) [
      | inl h ↦
          subst (Steps future stuff rest) (sym (trailers_wait h))
            (stuff, refl, more_to_come t (inr (no_line_yet [] rest future b plain wire h)))
      | inr (i, h) ↦
          let (zeroth, _, after) = found_line [] rest future b t.valid plain wire h in
          let (no_data, ended_so) = complete-Listening react c.body_stream f t.listening in
          subst (Steps future stuff rest)
            (sym (last_line react c b (h ∙ ap some zeroth) t.no_trailers_yet))
            (
              [],
              none_left ∙ sym (append-nil _ ∙ no_data),
              all_delivered
                  (ap (λ k. contents (retrieve_until (k + 2) b) ++ future) (sym zeroth) ∙ after)
                  refl ended_so,
            )
    ]
  where
    expected : (contents b ++ future ≡ b'\r' ∷ b'\n' ∷ rest) × (stuff ≡ [])
    expected =
        unfold Expects in
        subst (λ x. Expects x c.streaming_body_remaining (contents b ++ future) stuff rest) s
          t.expects

    trailers_wait : find_crlf b ≡ none → stream_trailers_round react c b ≡ stops incomplete [] c b
    trailers_wait e = unfold stream_trailers_round in rw (e, stream_trailers_round) refl

round-Steps :
    (react : Event → List Call) (c : HttpContext) (b : Buffer) (future stuff rest : Bytes)
    → Flows react
    → (s : StreamingChunkState) → c.streaming_chunk_state ≡ s
    → Track c b future stuff rest
    → Steps future stuff rest (stream_round_in s react c b)
unfolding stream_round_in
round-Steps react c b future stuff rest f reads_size s t =
    size_round-Steps c b future stuff rest s t
round-Steps react c b future stuff rest f reads_data s t =
    data_round-Steps react c b future stuff rest f s t
round-Steps react c b future stuff rest f reads_data_crlf s t =
    crlf_round-Steps c b future stuff rest s t
round-Steps react c b future stuff rest f reads_trailers s t =
    trailers_round-Steps react c b future stuff rest f s t

-- What the loop has done, if it has returned.
abbrev Delivered : Bytes → Bytes → Bytes → Option Processed → Type 0
Delivered future stuff rest none = Unit
Delivered future stuff rest (some r) =
    (left : Bytes) × (stuff ≡ data_of r.events ++ left)
    × Outcome future rest r.status left r.context r.buffer

behind-Delivered :
    (future stuff left rest : Bytes) (es : List Event) (o : Option Processed)
    → stuff ≡ data_of es ++ left
    → Delivered future left rest o
    → Delivered future stuff rest (behind es o)
behind-Delivered future stuff left rest es none e d = tt
behind-Delivered future stuff left rest es (some r) e (last, d, o) = (
  last,
  e
      ∙ ap (◌++◌ (data_of es)) d
      ∙ sym (append_assoc (data_of es) (data_of r.events) last)
      ∙ ap (λ xs. xs ++ last) (sym (data_of-append es r.events)),
  o,
)

module _ (react : Event → List Call) (f : Flows react) (future rest : Bytes) where
  after_round :
      (fuel : ℕ) (c : HttpContext) (b : Buffer) (stuff : Bytes) (r : StreamRound)
      → ((d : HttpContext) (e : Buffer) (left : Bytes)
          → Track d e future left rest
          → Delivered future left rest (stream_loop (chunked_round react) fuel d e))
      → chunked_round react c b ≡ r
      → Steps future stuff rest r
      → Delivered future stuff rest (stream_loop (chunked_round react) (suc fuel) c b)
  unfolding stream_loop
  after_round fuel c b stuff (stops s es d e) later eq h = rw (eq, stream_loop) h
  after_round fuel c b stuff (goes_on es d e) later eq (left, s, t) =
      rw (eq, stream_loop)
        (behind-Delivered future stuff left rest es (stream_loop (chunked_round react) fuel d e) s
          (later d e left t))

  chunked_loop-Delivered :
      (fuel : ℕ) (c : HttpContext) (b : Buffer) (stuff : Bytes)
      → Track c b future stuff rest
      → Delivered future stuff rest (stream_loop (chunked_round react) fuel c b)
  unfolding stream_loop
  chunked_loop-Delivered zero c b stuff t = tt
  chunked_loop-Delivered (suc fuel) c b stuff t =
      after_round fuel c b stuff (chunked_round react c b)
        (λ d e left. chunked_loop-Delivered fuel d e left) refl
        (round-Steps react c b future stuff rest f c.streaming_chunk_state refl t)

pub process_chunked-cases :
    (react : Event → List Call) (c : HttpContext) (b : Buffer)
    → c.streaming_body_mode ≡ chunked_body
    → ((c.body_stream.reading_paused ≡ true)
        × (process_streaming_body react c b
            ≡ some (record { status = incomplete; events = []; context = c; buffer = b })))
      ⊎ (process_streaming_body react c b
          ≡ stream_loop (chunked_round react) (readable_bytes b + 2) c b)
unfolding process_streaming_body
process_chunked-cases react c b m = ground arith

-- One call on a body in pieces.
pub process-Track :
    (react : Event → List Call) (c : HttpContext) (b : Buffer) (future stuff rest : Bytes)
    → Flows react
    → Track c b future stuff rest
    → (r : Processed) × (process_streaming_body react c b ≡ some r)
      × (left : Bytes) × (stuff ≡ data_of r.events ++ left)
      × Outcome future rest r.status left r.context r.buffer
process-Track react c b future stuff rest f t =
    let (r, e, _, _) = process_streaming_body_total react c b t.valid in
    let (left, s, o) = subst (Delivered future stuff rest) e whole in (r, e, left, s, o)
  where
    whole : Delivered future stuff rest (process_streaming_body react c b)
    whole = elim (process_chunked-cases react c b t.mode) [
      | inl (p, e) ↦
          subst (Delivered future stuff rest) (sym e) (stuff, refl, more_to_come t (inl p))
      | inr e ↦
          subst (Delivered future stuff rest) (sym e)
            (chunked_loop-Delivered react f future rest (readable_bytes b + 2) c b stuff t)
    ]
