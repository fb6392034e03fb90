-- ===== src/Http/Context/Chunked/Rounds.antt =====
-- The rounds behind the size of a chunk: its data, its CR LF, and the end of the body.
use oklib.Common.{
  ◌==◌, if◌then◌else◌, length, get_or, take, drop, length-append, length-take, Bytes, ℕ, zero, suc,
  ◌+◌, ◌-◌, ◌%◌, ◌^◌, ◌≤◌, min, ◌≡◌, refl, sym, ap, ap₂, subst, ◌∙◌, ◌⊎◌, inl, inr, true, false,
  List, [], ◌∷◌, ◌++◌, append_assoc, arith,
}
use oklib.Buffer.{readable_bytes, contents, retrieve, Buffer}
use oklib.Buffer.Invariant.{length-contents, retrieve-IsValid}
use oklib.Buffer.Contents.{contents-retrieve}
use oklib.Http.Parser.{incomplete}
use oklib.Http.BodyStream.{on_data, BodyStream, Event, Call}
use oklib.Http.Parser.Chunks.RoundTrip.{written, joined}
use oklib.Http.Context.{HttpContext, reads_data, reads_data_crlf}
use oklib.Http.Context.Streaming.{answer, chunk_of, stream_data_round, stops, goes_on}
use oklib.Http.Context.Delivery.{Flows, deliver-Listening}
use oklib.Http.Context.Chunked.{Expects}
use oklib.Http.Context.Chunked.Segments.{Steps, short_of, Track, more_to_come}

abbrev pub given : (Event → List Call) → HttpContext → Buffer → List Event × BodyStream
given react c b = answer react (on_data (chunk_of c b) c.body_stream)

abbrev pub taken : HttpContext → Buffer → ℕ
taken c b = min c.streaming_body_remaining (readable_bytes b)

abbrev pub fed : (Event → List Call) → HttpContext → Buffer → HttpContext
fed react c b = record c {
  body_stream = (given react c b).1;
  streaming_body_remaining = c.streaming_body_remaining - taken c b;
  streaming_decoded_body_bytes = (c.streaming_decoded_body_bytes + taken c b) % 2 ^ 64;
  streaming_chunk_state =
      if c.streaming_body_remaining - taken c b == 0 then reads_data_crlf else reads_data;
}

pub data_cases :
    (react : Event → List Call) (c : HttpContext) (b : Buffer)
    → ((c.body_stream.reading_paused ≡ true)
        × (stream_data_round react c b ≡ stops incomplete [] c b))
      ⊎ ((readable_bytes b ≡ 0) × (stream_data_round react c b ≡ stops incomplete [] c b))
      ⊎ (stream_data_round react c b
          ≡ goes_on (given react c b).0 (fed react c b) (retrieve (taken c b) b))
unfolding stream_data_round
data_cases react c b = ground arith

-- The chunk's bytes that have arrived, and those that have not.
pub record Cut (n : ℕ) (chunk later bytes future : Bytes) : Type 0 where
  pub left : Bytes
  pub whole : chunk ≡ take n bytes ++ left
  pub after : drop n bytes ++ future ≡ left ++ later

parted :
    (n : ℕ) (chunk later bytes future : Bytes)
    → bytes ++ future ≡ chunk ++ later
    → n ≤ length chunk
    → n ≤ length bytes
    → Cut n chunk later bytes future
parted zero chunk later bytes future e h k = record { left = chunk; whole = refl; after = e }
parted (suc n) [] later bytes future e h k = absurd (omega arith)
parted (suc n) (x ∷ xs) later [] future e h k = absurd (omega arith)
parted (suc n) (x ∷ xs) later (y ∷ ys) future e h k =
    let c = parted n xs later ys future (ap (drop 1) e) (omega arith) (omega arith) in
    record {
      left = c.left;
      whole = ap₂ ◌∷◌ (ap (λ zs. get_or zs 0 0) (sym e)) c.whole;
      after = c.after;
    }

-- What is expected behind a part of a chunk.
rest_of_chunk :
    (n : ℕ) (wire left rest stuff : Bytes) (chunks : List Bytes)
    → length left ≡ n
    → wire ≡ left ++ b'\r' ∷ b'\n' ∷ (written chunks ++ rest)
    → stuff ≡ left ++ joined chunks
    → Expects (if n == 0 then reads_data_crlf else reads_data) n wire stuff rest
unfolding Expects
rest_of_chunk zero wire [] rest stuff chunks l e s = (chunks, e, s)
rest_of_chunk zero wire (x ∷ xs) rest stuff chunks l e s = absurd (omega arith)
rest_of_chunk (suc n) wire left rest stuff chunks l e s =
    rw (positive n) (left, chunks, l, omega arith, e, s)
  where
    positive : (n : ℕ) → (suc n == 0) ≡ false
    positive n = ground arith

pub data_round-Steps :
    (react : Event → List Call) (c : HttpContext) (b : Buffer) (future stuff rest : Bytes)
    → Flows react
    → c.streaming_chunk_state ≡ reads_data
    → Track c b future stuff rest
    → Steps future stuff rest (stream_data_round react c b)
data_round-Steps react c b future stuff rest f s t =
    let (chunk, chunks, l, p, wire, left) = expected in
    let n = taken c b in
    let len = length-contents b t.valid in
    elim (data_cases react c b) [
      | inl (h, e) ↦ subst (Steps future stuff rest) (sym e) (stuff, refl, more_to_come t (inl h))
      | inr (inl (h, e)) ↦ subst (Steps future stuff rest) (sym e) (
        stuff,
        refl,
        more_to_come t (
            inr (
              short_of (contents b) _ future 1 wire (omega arith)
                (omega (arith, length-append chunk (b'\r' ∷ b'\n' ∷ (written chunks ++ rest)))))),
      )
      | inr (inr e) ↦
          let cut =
            parted n chunk (b'\r' ∷ b'\n' ∷ (written chunks ++ rest)) (contents b) future wire
              (omega arith) (omega arith) in
          let (told, listening) =
            deliver-Listening react (chunk_of c b) c.body_stream f t.listening in
          let still = cut.left ++ joined chunks in
          let shares : stuff ≡ chunk_of c b ++ still =
            left
            ∙ ap (λ xs. xs ++ joined chunks) cut.whole
            ∙ append_assoc (chunk_of c b) cut.left (joined chunks) in
          let measured = length-take n (contents b) in
          let sizes = ap length cut.whole ∙ length-append (chunk_of c b) cut.left in
          let sums = ap length shares ∙ length-append (chunk_of c b) still in
          let after = ap (λ xs. xs ++ future) (contents-retrieve n b t.valid) ∙ cut.after in
          subst (Steps future stuff rest) (sym e) (
            still,
            shares ∙ ap (λ xs. xs ++ still) (sym told),
            record {
              expects =
                  rest_of_chunk (c.streaming_body_remaining - n) _ cut.left rest still chunks
                    (omega arith) after refl;
              valid = retrieve-IsValid n b t.valid;
              listening = listening;
              room = ground (arith, t.room);
              no_trailers_yet = t.no_trailers_yet;
              mode = t.mode;
            },
          )
    ]
  where
    expected :
        (chunk : Bytes) × (chunks : List Bytes) × (length chunk ≡ c.streaming_body_remaining)
        × (1 ≤ c.streaming_body_remaining)
        × (contents b ++ future ≡ chunk ++ b'\r' ∷ b'\n' ∷ (written chunks ++ rest))
        × (stuff ≡ chunk ++ joined chunks)
    expected =
        unfold Expects in
        subst (λ x. Expects x c.streaming_body_remaining (contents b ++ future) stuff rest) s
          t.expects
