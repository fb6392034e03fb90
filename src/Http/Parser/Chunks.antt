-- ===== src/Http/Parser/Chunks.antt =====
-- The rounds over a chunked body.
pub mod RoundTrip
use oklib.Common.{
  ltb, le→ltb, length, get_or, take, length-append, take-append_exact, drop-append_add,
  get_or-append_exact, Bytes, ℕ, ◌+◌, ◌%◌, ◌^◌, ◌≤◌, ◌<◌, ◌≡◌, refl, sym, ap, ◌∙◌, ◌≢◌, false, some,
  [], ◌∷◌, ◌++◌, append_assoc, arith,
}
use oklib.Buffer.{readable_bytes, contents, retrieve, retrieve_until, Buffer}
use oklib.Buffer.Invariant.{length-contents, retrieve-IsValid, IsValid}
use oklib.Buffer.Crlf.{IsLine, IsLine-plain, line_at}
use oklib.Http.Text.Split.{find-Lacks}
use oklib.Http.Numbers.{digit_char, print_digits, to_chars}
use oklib.Http.Numbers.Print.{All-hex, parse_hex_u64-to_chars}
use oklib.Http.Parser.{
  message_body, put_body, HttpParser, complete, chunk_size, chunk_data, trailers, completed,
}
use oklib.Http.Parser.Body.{
  chunk_line_size, begin_chunk, parse_chunk_size, parse_chunk_data, parse_trailers_fuel,
  parse_trailers,
}
use oklib.Http.Parser.Loop.{round_in, Round, returns, continues}
use oklib.Http.Writer.{encode_chunk, finish}
use oklib.Http.Parser.Runs.{Runs, arrived, then_runs}
use oklib.Buffer.Contents.{contents-retrieve}

digit_not_cr : (d : ℕ) → d < 16 → digit_char d ≢ b'\r'
unfolding digit_char
digit_not_cr d h = ground arith

pub digit_not_semicolon : (d : ℕ) → d < 16 → digit_char d ≢ b';'
unfolding digit_char
digit_not_semicolon d h = ground arith

pub chunk_line_size-to_chars : (n : ℕ) → n < 2 ^ 64 → chunk_line_size (to_chars 16 n) ≡ some n
unfolding chunk_line_size
chunk_line_size-to_chars n h =
    rw (find-Lacks b';' (to_chars 16 n) (All-hex _ digit_not_semicolon n), chunk_line_size)
      (parse_hex_u64-to_chars n h).0

pub to_chars-IsLine : (n : ℕ) → IsLine (to_chars 16 n)
to_chars-IsLine n = IsLine-plain (to_chars 16 n) (All-hex _ digit_not_cr n)

-- The buffer behind the line of a size.
abbrev pub behind_size : ℕ → Buffer → Buffer
behind_size n b = retrieve_until (length (to_chars 16 n) + 2) b

-- The line of a chunk's size.
size_round :
    (t : ℕ) (p : HttpParser) (b : Buffer) (n : ℕ) (rest : Bytes)
    → IsValid b
    → contents b ≡ to_chars 16 n ++ b'\r' ∷ b'\n' ∷ rest
    → 1 ≤ n
    → n < 2 ^ 64
    → p.decoded_body_bytes + n ≤ p.options.max_body
    → round_in chunk_size t p b
      ≡ continues (record p { current_chunk_size = n; state = chunk_data }) (behind_size n b)
unfolding round_in parse_chunk_size begin_chunk
size_round t p b n rest v e some_bytes fits within =
    let line = line_at (to_chars 16 n) rest b v (to_chars-IsLine n) e in
    rw (line.found, line.taken, chunk_line_size-to_chars n fits, parse_chunk_size, round_in)
      (ground arith)

-- What the parser looks at, at the end of a chunk.
chunk_at :
    (p : HttpParser) (b : Buffer) (chunk rest : Bytes)
    → IsValid b
    → contents b ≡ chunk ++ b'\r' ∷ b'\n' ∷ rest
    → length chunk ≡ p.current_chunk_size
    → length chunk + 2 < 2 ^ 64
    → (ltb (readable_bytes b) ((p.current_chunk_size + 2) % 2 ^ 64) ≡ false)
      × (get_or (contents b) p.current_chunk_size 0 ≡ b'\r')
      × (get_or (contents b) (p.current_chunk_size + 1) 0 ≡ b'\n')
      × (take p.current_chunk_size (contents b) ≡ chunk)
chunk_at p b chunk rest v e size fits = (
  le→ltb (readable_bytes b) ((p.current_chunk_size + 2) % 2 ^ 64)
      (omega (arith, length-contents b v, ap length e, length-append chunk (b'\r' ∷ b'\n' ∷ rest))),
  rw e (get_or-append_exact p.current_chunk_size chunk b'\r' (b'\n' ∷ rest) 0 (sym size)),
  rw (e, ← append_assoc chunk (b'\r' ∷ []) (b'\n' ∷ rest))
      (get_or-append_exact (p.current_chunk_size + 1) (chunk ++ b'\r' ∷ []) b'\n' rest 0
        (omega (arith, length-append chunk (b'\r' ∷ [])))),
  rw e (take-append_exact p.current_chunk_size chunk (b'\r' ∷ b'\n' ∷ rest) (sym size)),
)

-- The bytes of a chunk.
data_round :
    (t : ℕ) (p : HttpParser) (b : Buffer) (chunk rest : Bytes)
    → IsValid b
    → contents b ≡ chunk ++ b'\r' ∷ b'\n' ∷ rest
    → length chunk ≡ p.current_chunk_size
    → length chunk + 2 < 2 ^ 64
    → round_in chunk_data t p b
      ≡ continues
          (record (put_body (message_body p ++ chunk) p) {
            decoded_body_bytes = (p.decoded_body_bytes + length chunk) % 2 ^ 64;
            state = chunk_size;
          })
          (retrieve (length chunk + 2) b)
unfolding round_in parse_chunk_data
data_round t p b chunk rest v e size fits =
    let (enough, cr, lf, taken) = chunk_at p b chunk rest v e size fits in
    rw (enough, cr, lf, taken, ← size, parse_chunk_data) refl

-- The rounds of `parse`.
abbrev pub rounds : ℕ → HttpParser → Buffer → Round
rounds t p b = round_in p.state t p b

-- The parser behind a chunk.
abbrev pub after_chunk : Bytes → HttpParser → HttpParser
after_chunk chunk p =
    record (put_body (message_body p ++ chunk)
      (record p { current_chunk_size = length chunk; state = chunk_data })) {
        decoded_body_bytes = (p.decoded_body_bytes + length chunk) % 2 ^ 64;
        state = chunk_size;
      }

pub after_chunk-body :
    (chunk : Bytes) (p : HttpParser)
    → (message_body (after_chunk chunk p) ≡ message_body p ++ chunk)
      × ((after_chunk chunk p).options ≡ p.options)
      × ((after_chunk chunk p).mode ≡ p.mode)
after_chunk-body chunk p = ground arith

pub encode_chunk-append :
    (chunk rest : Bytes)
    → encode_chunk chunk ++ rest
      ≡ to_chars 16 (length chunk) ++ b'\r' ∷ b'\n' ∷ (chunk ++ b'\r' ∷ b'\n' ∷ rest)
unfolding encode_chunk
encode_chunk-append chunk rest =
    append_assoc (to_chars 16 (length chunk)) (b'\r' ∷ b'\n' ∷ (chunk ++ b'\r' ∷ b'\n' ∷ [])) rest
    ∙ ap (λ tail. to_chars 16 (length chunk) ++ b'\r' ∷ b'\n' ∷ tail)
        (append_assoc chunk (b'\r' ∷ b'\n' ∷ []) rest)

-- The two rounds over one chunk.
pub chunk-Runs :
    (t : ℕ) (p : HttpParser) (b : Buffer) (chunk rest : Bytes)
    → IsValid b
    → p.state ≡ chunk_size
    → contents b ≡ encode_chunk chunk ++ rest
    → 1 ≤ length chunk
    → length chunk + 2 < 2 ^ 64
    → p.decoded_body_bytes + length chunk ≤ p.options.max_body
    → (c : Buffer) × IsValid c × (contents c ≡ rest) × Runs (rounds t) (after_chunk chunk p) c p b
chunk-Runs t p b chunk rest v s e some_bytes fits within =
    let n = length chunk in
    let behind = chunk ++ b'\r' ∷ b'\n' ∷ rest in
    let e' = e ∙ encode_chunk-append chunk rest in
    let line = line_at (to_chars 16 n) behind b v (to_chars-IsLine n) e' in
    let sized : HttpParser = record p { current_chunk_size = n; state = chunk_data } in
    let first = size_round t p b n behind v e' some_bytes (omega arith) within in
    let second = data_round t sized (behind_size n b) chunk rest line.valid line.left refl fits in
    (
      retrieve (n + 2) (behind_size n b),
      retrieve-IsValid (n + 2) (behind_size n b) line.valid,
      contents-retrieve (n + 2) (behind_size n b) line.valid
          ∙ (rw line.left (drop-append_add chunk (b'\r' ∷ b'\n' ∷ rest) 2)),
      then_runs (ap (λ x. round_in x t p b) s ∙ first) (then_runs second arrived),
    )

pub last_round :
    (t : ℕ) (p : HttpParser) (b : Buffer) (rest : Bytes)
    → IsValid b
    → contents b ≡ to_chars 16 0 ++ b'\r' ∷ b'\n' ∷ rest
    → round_in chunk_size t p b
      ≡ continues (record p { current_chunk_size = 0; state = trailers }) (behind_size 0 b)
unfolding round_in parse_chunk_size begin_chunk
last_round t p b rest v e =
    let line = line_at (to_chars 16 0) rest b v (to_chars-IsLine 0) e in
    rw
      (line.found, line.taken, chunk_line_size-to_chars 0 (omega arith), parse_chunk_size, round_in)
      (ground arith)

-- No trailers: the empty line ends the message.
pub no_trailers :
    (t : ℕ) (p : HttpParser) (b : Buffer) (rest : Bytes)
    → IsValid b
    → contents b ≡ b'\r' ∷ b'\n' ∷ rest
    → round_in trailers t p b
      ≡ returns complete (record p { state = completed }) (retrieve_until 2 b)
unfolding round_in parse_trailers parse_trailers_fuel
no_trailers t p b rest v e =
    let line = line_at [] rest b v (IsLine-plain [] tt) e in
    rw (line.found, parse_trailers_fuel, parse_trailers, round_in) refl

pub zero_chunk :
    (rest : Bytes) → finish ++ rest ≡ to_chars 16 0 ++ b'\r' ∷ b'\n' ∷ b'\r' ∷ b'\n' ∷ rest
unfolding finish to_chars print_digits digit_char
zero_chunk rest = refl
