-- ===== src/Http/Context/Chunked/Segments.antt =====
-- The rounds over a chunked body that arrives in pieces.
use oklib.Http.Text.Split.{find-Lacks}
use oklib.Http.Numbers.Print.{All-hex, parse_hex_u64-to_chars}
use oklib.Common.{
  ◌==◌, if◌then◌else◌, Option-cases, length, take, length-append, Bytes, ℕ, ◌+◌, ◌^◌, ◌≤◌, ◌<◌, ◌≡◌,
  refl, sym, ap, subst, ◌∙◌, ◌⊎◌, inl, inr, true, false, none, some, List, [], ◌∷◌, ◌++◌,
  append-nil, arith,
}
use oklib.Buffer.{contents, search_crlf, find_crlf, retrieve_until, Buffer}
use oklib.Buffer.Invariant.{IsValid}
use oklib.Buffer.Crlf.{IsLine, search_crlf-append, retrieve_line}
use oklib.Http.Parser.{HttpParseStatus, incomplete, complete}
use oklib.Http.Context.{
  k_max_streaming_body, HttpContext, chunked_body, reads_size, reads_data, reads_trailers,
}
use oklib.Http.Context.Streaming.{
  stream_line_size, stream_begin_chunk, stream_size_round, StreamRound, stops, goes_on,
}
use oklib.Http.Context.Delivery.{data_of, Listening}
use oklib.Http.Context.Chunked.{Expects, size_line, found_line, SizeLine}
use oklib.Http.Numbers.{to_chars}
use oklib.Http.Parser.Chunks.{digit_not_semicolon, to_chars-IsLine}
use oklib.Http.Parser.Chunks.RoundTrip.{written, joined}

-- The context and the buffer are where `stuff` of the body, and then `rest`, is still to come; of
-- what arrives, all but `future` is in the buffer.
pub record Track (c : HttpContext) (b : Buffer) (future stuff rest : Bytes) : Type 0 where
  pub expects :
      Expects c.streaming_chunk_state c.streaming_body_remaining (contents b ++ future) stuff rest
  pub valid : IsValid b
  pub listening : Listening c.body_stream
  pub room : c.streaming_decoded_body_bytes + length stuff ≤ k_max_streaming_body
  pub no_trailers_yet : c.streaming_trailer_bytes ≡ 0
  pub mode : c.streaming_body_mode ≡ chunked_body

-- How a call on a body in pieces ends: with more to come, or with all of the body.
pub data Outcome (future rest : Bytes)
    : HttpParseStatus → Bytes → HttpContext → Buffer → Type 0 where
  more_to_come :
      {c : HttpContext} {b : Buffer} {stuff : Bytes}
      → Track c b future stuff rest
      → (c.body_stream.reading_paused ≡ true) ⊎ (1 ≤ length future)
      → Outcome future rest incomplete stuff c b
  all_delivered :
      {c : HttpContext} {b : Buffer}
      → contents b ++ future ≡ rest
      → c.streaming_body_active ≡ false
      → c.body_stream.completed ≡ true
      → Outcome future rest complete [] c b

-- What a round may do.
abbrev pub Steps : Bytes → Bytes → Bytes → StreamRound → Type 0
Steps future stuff rest (stops s es d e) =
    (left : Bytes) × (stuff ≡ data_of es ++ left) × Outcome future rest s left d e
Steps future stuff rest (goes_on es d e) =
    (left : Bytes) × (stuff ≡ data_of es ++ left) × Track d e future left rest

-- Some of what is expected has not arrived.
pub short_of :
    (xs ys future : Bytes) (n : ℕ)
    → xs ++ future ≡ ys
    → length xs < n
    → n ≤ length ys
    → 1 ≤ length future
short_of xs ys future n e lt le = omega (arith, ap length e, length-append xs future)

-- A line that is not there yet.
pub no_line_yet :
    (line later future : Bytes) (b : Buffer)
    → IsLine line
    → contents b ++ future ≡ line ++ b'\r' ∷ b'\n' ∷ later
    → find_crlf b ≡ none
    → 1 ≤ length future
unfolding find_crlf
no_line_yet line later [] b l e h = absurd (
    some_none (
      sym (search_crlf-append line later l) ∙ ap search_crlf (sym e ∙ append-nil (contents b)) ∙ h))
  where
    some_none : {n : ℕ} → some n ≡ none → ⊥
    some_none h = cc
no_line_yet line later (x ∷ future) b l e h = omega arith

abbrev sized : ℕ → HttpContext → HttpContext
sized size c = record c {
  streaming_body_remaining = size;
  streaming_chunk_state = if size == 0 then reads_trailers else reads_data;
}

size_waits :
    (c : HttpContext) (b : Buffer)
    → find_crlf b ≡ none
    → stream_size_round c b ≡ stops incomplete [] c b
unfolding stream_size_round
size_waits c b e = rw (e, stream_size_round) refl

stream_line_size-to_chars : (n : ℕ) → n < 2 ^ 64 → stream_line_size (to_chars 16 n) ≡ some n
unfolding stream_line_size
stream_line_size-to_chars n h =
    rw (find-Lacks b';' (to_chars 16 n) (All-hex _ digit_not_semicolon n), stream_line_size)
      (parse_hex_u64-to_chars n h).0

size_goes_on :
    (c : HttpContext) (b : Buffer) (i size : ℕ)
    → find_crlf b ≡ some i
    → take i (contents b) ≡ to_chars 16 size
    → c.streaming_decoded_body_bytes + size ≤ k_max_streaming_body
    → stream_size_round c b ≡ goes_on [] (sized size c) (retrieve_until (i + 2) b)
unfolding stream_size_round stream_begin_chunk
size_goes_on c b i size e line room =
    rw (e, line, stream_line_size-to_chars size (omega arith), stream_size_round) (ground arith)

sized-Track :
    (c : HttpContext) (b : Buffer) (future stuff rest wire : Bytes) (size : ℕ)
    → ((size ≡ 0) × Expects reads_trailers 0 wire stuff rest)
      ⊎ ((1 ≤ size) × Expects reads_data size wire stuff rest)
    → contents b ++ future ≡ wire
    → IsValid b
    → Listening c.body_stream
    → c.streaming_decoded_body_bytes + length stuff ≤ k_max_streaming_body
    → c.streaming_trailer_bytes ≡ 0
    → c.streaming_body_mode ≡ chunked_body
    → Track (sized size c) b future stuff rest
sized-Track c b future stuff rest wire size next e v l room no_trailers_yet mode = record {
  expects = elim next [
    | inl (z, x) ↦ rw z (subst (λ w. Expects reads_trailers 0 w stuff rest) (sym e) x)
    | inr (p, x) ↦ rw (nonzero size p) (subst (λ w. Expects reads_data size w stuff rest) (sym e) x)
  ];
  valid = v;
  listening = l;
  room = room;
  no_trailers_yet = no_trailers_yet;
  mode = mode;
}
  where
    nonzero : (n : ℕ) → 1 ≤ n → (n == 0) ≡ false
    nonzero n h = ground arith

pub size_round-Steps :
    (c : HttpContext) (b : Buffer) (future stuff rest : Bytes)
    → c.streaming_chunk_state ≡ reads_size
    → Track c b future stuff rest
    → Steps future stuff rest (stream_size_round c b)
size_round-Steps c b future stuff rest s t =
    let (chunks, wire, left) = expected in
    let line =
      subst (λ x. SizeLine (written chunks ++ rest) x rest) (sym left) (size_line chunks rest) in
    let e = wire ∙ line.line in
    let plain = to_chars-IsLine line.size in
    elim (Option-cases (find_crlf b)) [
      | inl h ↦ subst (Steps future stuff rest) (sym (size_waits c b h)) (
        stuff,
        refl,
        more_to_come t (inr (no_line_yet (to_chars 16 line.size) line.later future b plain e h)),
      )
      | inr (i, h) ↦
          let found = found_line (to_chars 16 line.size) line.later future b t.valid plain e h in
          subst (Steps future stuff rest)
            (sym (size_goes_on c b i line.size h found.1 (omega (arith, line.within, t.room))))
            (
              stuff,
              refl,
              sized-Track c (retrieve_until (i + 2) b) future stuff rest line.later line.size
                  line.next found.2 (retrieve_line b t.valid h).0 t.listening t.room
                  t.no_trailers_yet t.mode,
            )
    ]
  where
    expected :
        (chunks : List Bytes) × (contents b ++ future ≡ written chunks ++ rest)
        × (stuff ≡ joined chunks)
    expected =
        unfold Expects in
        subst (λ x. Expects x c.streaming_body_remaining (contents b ++ future) stuff rest) s
          t.expects
