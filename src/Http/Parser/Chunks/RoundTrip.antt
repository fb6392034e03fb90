-- ===== src/Http/Parser/Chunks/RoundTrip.antt =====
-- The chunked body: what the response writer writes is read back.
use oklib.Common.{
  length, Bytes, ℕ, ◌+◌, ◌^◌, ◌≤◌, ◌<◌, ◌≡◌, refl, sym, ap, ◌∙◌, some, List, [], ◌∷◌, ◌++◌,
  append-nil, append_assoc, arith,
}
use oklib.Buffer.{contents, retrieve_until, Buffer}
use oklib.Buffer.Invariant.{IsValid}
use oklib.Buffer.Crlf.{IsLine-plain, line_at}
use oklib.Http.Numbers.{to_chars}
use oklib.Http.Parser.{
  message_body, HttpParserOptions, HttpParser, complete, chunk_size, trailers, completed,
}
use oklib.Http.Parser.Loop.{round_in, parse, returns}
use oklib.Http.Writer.{encode_chunk, write_chunk, finish}
use oklib.Http.Parser.Runs.{Runs-trans, loop-returns, Runs, arrived, then_runs}
use oklib.Http.Parser.Progress.{round-Advances}
use oklib.Http.Parser.Chunks.{
  to_chars-IsLine, behind_size, rounds, after_chunk, after_chunk-body, chunk-Runs, last_round,
  no_trailers, zero_chunk,
}

-- What is left to read, all of it from here to the end of the chunks.
abbrev pub written : List Bytes → Bytes
written [] = finish
written (chunk ∷ chunks) = write_chunk chunk ++ written chunks

-- The chunks put together.
abbrev pub joined : List Bytes → Bytes
joined [] = []
joined (chunk ∷ chunks) = chunk ++ joined chunks

-- The run over a chunked body: it completes the message with the chunks put together behind the
-- body so far, and leaves what follows.
record Decoded (t : ℕ) (p : HttpParser) (b : Buffer) (body rest : Bytes) : Type 0 where
  pub last_parser : HttpParser
  pub last_buffer : Buffer
  pub parser : HttpParser
  pub buffer : Buffer
  pub runs : Runs (rounds t) last_parser last_buffer p b
  pub returned : rounds t last_parser last_buffer ≡ returns complete parser buffer
  pub body_read : message_body parser ≡ message_body p ++ body
  pub rest_left : contents buffer ≡ rest
  pub ended : parser.state ≡ completed

decode_end :
    (t : ℕ) (p : HttpParser) (b : Buffer) (rest : Bytes)
    → IsValid b
    → p.state ≡ chunk_size
    → contents b ≡ finish ++ rest
    → Decoded t p b [] rest
decode_end t p b rest v s e =
    let e' = e ∙ zero_chunk rest in
    let tail = b'\r' ∷ b'\n' ∷ rest in
    let line = line_at (to_chars 16 0) tail b v (to_chars-IsLine 0) e' in
    let last_parser : HttpParser = record p { current_chunk_size = 0; state = trailers } in
    let blank = line_at [] rest (behind_size 0 b) line.valid (IsLine-plain [] tt) line.left in
    record {
      last_parser = last_parser;
      last_buffer = behind_size 0 b;
      parser = record p { current_chunk_size = 0; state = completed };
      buffer = retrieve_until 2 (behind_size 0 b);
      runs = then_runs (ap (λ x. round_in x t p b) s ∙ last_round t p b tail v e') arrived;
      returned = no_trailers t last_parser (behind_size 0 b) rest line.valid line.left;
      body_read = sym (append-nil _);
      rest_left = blank.left;
      ended = refl;
    }

-- The body is within the limit.
abbrev pub total : List Bytes → ℕ
total [] = 0
total (chunk ∷ chunks) = length chunk + total chunks

-- Behind a chunk the same run goes on.
extend :
    (t : ℕ) (p : HttpParser) (b c : Buffer) (chunk body rest : Bytes)
    → Runs (rounds t) (after_chunk chunk p) c p b
    → Decoded t (after_chunk chunk p) c body rest
    → Decoded t p b (chunk ++ body) rest
extend t p b c chunk body rest runs d = record {
  last_parser = d.last_parser;
  last_buffer = d.last_buffer;
  parser = d.parser;
  buffer = d.buffer;
  runs = Runs-trans runs d.runs;
  returned = d.returned;
  body_read =
      d.body_read
      ∙ ap (λ front. front ++ body) (after_chunk-body chunk p).0
      ∙ append_assoc (message_body p) chunk body;
  rest_left = d.rest_left;
  ended = d.ended;
}

decode :
    (t : ℕ) (p : HttpParser) (b : Buffer) (chunks : List Bytes) (rest : Bytes)
    → IsValid b
    → p.state ≡ chunk_size
    → contents b ≡ written chunks ++ rest
    → p.options.max_body + 2 < 2 ^ 64
    → p.decoded_body_bytes + total chunks ≤ p.options.max_body
    → Decoded t p b (joined chunks) rest
unfolding write_chunk
decode t p b [] rest v s e fits within = decode_end t p b rest v s e
decode t p b ([] ∷ chunks) rest v s e fits within =
    decode t p b chunks rest v s e fits (omega arith)
decode t p b ((x ∷ xs) ∷ chunks) rest v s e fits within =
    let chunk = x ∷ xs in
    let e' = e ∙ append_assoc (encode_chunk chunk) (written chunks) rest in
    let (c, w, left, runs) =
      chunk-Runs t p b chunk (written chunks ++ rest) v s e' (omega arith) (omega arith)
        (omega arith) in
    let (_, options, _) = after_chunk-body chunk p in
    extend t p b c chunk (joined chunks) rest runs (
      decode t (after_chunk chunk p) c chunks rest w refl left
        (omega (arith, ap (λ (o : HttpParserOptions). o.max_body) options))
        (omega (arith, ap (λ (o : HttpParserOptions). o.max_body) options)))

-- A parser at the start of a chunked body, and unread bytes that begin with what `write_chunk`
-- wrote for any chunks, empty ones among them, and `finish` behind them. If the chunks are within
-- the limit of a body, and that limit within 64 bits, then `parse` completes the message: the
-- chunks put together stand behind the body so far, and exactly the bytes that follow are left.
pub parse-written :
    (t : ℕ) (p : HttpParser) (b : Buffer) (chunks : List Bytes) (rest : Bytes)
    → IsValid b
    → p.state ≡ chunk_size
    → contents b ≡ written chunks ++ rest
    → p.options.max_body + 2 < 2 ^ 64
    → p.decoded_body_bytes + total chunks ≤ p.options.max_body
    → (q : HttpParser) × (c : Buffer) × (parse t p b
        ≡ some (record { status = complete; parser = q; buffer = c }))
      × (message_body q ≡ message_body p ++ joined chunks)
      × (q.state ≡ completed)
      × (contents c ≡ rest)
unfolding parse
parse-written t p b chunks rest v s e fits within =
    let d = decode t p b chunks rest v s e fits within in
    (
      d.parser,
      d.buffer,
      loop-returns (rounds t) (λ q c. round-Advances q.state t q c) complete d.parser d.buffer
          d.runs d.returned v,
      d.body_read,
      d.ended,
      d.rest_left,
    )
