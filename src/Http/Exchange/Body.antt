-- ===== src/Http/Exchange/Body.antt =====
-- The rounds of the parser from the empty line to the end of a response.
use oklib.Common.{
  ltb, ◌==◌, if◌then◌else◌, le→ltb, Bool-cases, length, length-append, take-append_exact,
  drop-append_exact, Bytes, ℕ, ◌+◌, ◌^◌, ◌≤◌, ◌<◌, ◌≡◌, refl, sym, ap, ap₂, ◌∙◌, inl, inr, true,
  false, not, ◌&&◌, some, [], ◌∷◌, ◌++◌, arith,
}
use oklib.Buffer.{readable_bytes, contents, retrieve_until, retrieve_as_string, Buffer}
use oklib.Buffer.Invariant.{length-contents, IsValid}
use oklib.Buffer.Crlf.{IsLine-plain, line_at}
use oklib.Http.Response.{HttpResponse}
use oklib.Http.Response.Rendered.{fields_text, sent_fields, sent_body}
use oklib.Http.Parser.{
  new_response, finish_message, put_body, put_content_length, HttpParserOptions,
  HttpResponseMessage, HttpParser, complete, fixed_body, completed,
}
use oklib.Http.Parser.Framing.{
  status_code_allows_body, begin_fixed_body, begin_body, finish_headers,
}
use oklib.Http.Parser.Loop.{after_headers, header_line_round, headers_round, round_in, returns}
use oklib.Http.Parser.Runs.{Runs, arrived, then_runs}
use oklib.Http.Parser.Chunks.{rounds}
use oklib.Http.Exchange.{announced, IsSendable}
use oklib.Http.Exchange.Framed.{kept_fields, framing-sent}
use oklib.Http.Exchange.Head.{reading, started}
use oklib.Buffer.Contents.{retrieve_as_string_lem}
use oklib.Http.Parser.Body.{parse_fixed_body}

-- The parser behind all the fields.
abbrev pub at_end : HttpParserOptions → HttpResponse → HttpParser
at_end o r = reading o (started r (kept_fields r)) (length (fields_text (sent_fields false r)))

-- The message that is read.
abbrev pub received_message : HttpResponse → HttpResponseMessage
received_message r = record (started r (kept_fields r)) {
  content_length = some (announced r);
  body = sent_body true r;
}

-- What the rounds behind the fields come to: the message is complete.
pub record Completes (o : HttpParserOptions) (r : HttpResponse) (b : Buffer) (rest : Bytes)
    : Type 0 where
  pub last_parser : HttpParser
  pub last_buffer : Buffer
  pub parser : HttpParser
  pub buffer : Buffer
  pub runs : Runs (rounds 0) last_parser last_buffer (at_end o r) b
  pub returned : rounds 0 last_parser last_buffer ≡ returns complete parser buffer
  pub message : parser.resp ≡ received_message r
  pub rest_left : contents buffer ≡ rest

-- The parser with the empty line counted.
abbrev counted_end : HttpParserOptions → HttpResponse → HttpParser
counted_end o r =
    reading o (started r (kept_fields r)) (length (fields_text (sent_fields false r)) + 2)

blank_round :
    (o : HttpParserOptions) (r : HttpResponse) (b : Buffer) (rest : Bytes)
    → IsValid b
    → contents b ≡ b'\r' ∷ b'\n' ∷ rest
    → length (fields_text (sent_fields false r)) + 2 ≤ o.max_headers
    → rounds 0 (at_end o r) b
      ≡ after_headers (finish_headers (counted_end o r)) (retrieve_until 2 b)
unfolding round_in headers_round header_line_round
blank_round o r b rest v e within =
    let line = line_at [] rest b v (IsLine-plain [] tt) e in
    rw
      (
        line.found,
        headers_round,
        le→ltb o.max_headers (length (fields_text (sent_fields false r)) + 2) within,
      )
      refl

-- The parser that is about to read a body of `n` bytes.
abbrev before_body : HttpParserOptions → HttpResponse → HttpParser
before_body o r = record (put_content_length (length r.body) (counted_end o r)) {
  fixed_body_bytes = length r.body;
  state = fixed_body;
}

finish_sent :
    (o : HttpParserOptions) (r : HttpResponse)
    → IsSendable r
    → announced r ≤ o.max_body
    → o.max_body < 2 ^ 64
    → finish_headers (counted_end o r) ≡ (
        if status_code_allows_body r.status_code && not (length r.body == 0)
        then (true, before_body o r)
        else finish_message (put_content_length (announced r) (counted_end o r)))
unfolding finish_headers begin_body begin_fixed_body
finish_sent o r s within fits =
    let framed = framing-sent r s (omega arith) in
    elim (Bool-cases (status_code_allows_body r.status_code)) [
      | inl allows ↦ elim (Bool-cases (length r.body == 0)) [
        | inl h ↦ rw (framed, finish_headers, allows, h) refl
        | inr h ↦ rw (framed, finish_headers, allows, h, begin_body, enough allows) refl
      ]
      | inr h ↦ rw (framed, finish_headers, h) refl
    ]
  where
    enough : status_code_allows_body r.status_code ≡ true → ltb o.max_body (length r.body) ≡ false
    enough allows = ground (arith, allows)

-- The round over the body.
body_round :
    (o : HttpParserOptions) (r : HttpResponse) (b : Buffer) (rest : Bytes)
    → IsValid b
    → contents b ≡ r.body ++ rest
    → (round_in fixed_body 0 (before_body o r) b
        ≡ returns complete
            (record (put_body r.body (before_body o r)) { state = completed })
            (retrieve_as_string (length r.body) b).1)
      × (contents (retrieve_as_string (length r.body) b).1 ≡ rest)
unfolding round_in parse_fixed_body
body_round o r b rest v e =
    let (taken, left) = retrieve_as_string_lem (length r.body) b v in
    let enough : ltb (readable_bytes b) (length r.body) ≡ false =
      le→ltb (readable_bytes b) (length r.body)
        (omega (arith, length-contents b v, ap length e, length-append r.body rest)) in
    let body_taken = taken ∙ (rw e (take-append_exact (length r.body) r.body rest refl)) in
    (
      rw (enough, parse_fixed_body, body_taken) refl,
      left ∙ (rw e (drop-append_exact (length r.body) r.body rest refl)),
    )

abbrev message_of : HttpResponse → ℕ → Bytes → HttpResponseMessage
message_of r n body = record (started r (kept_fields r)) { content_length = some n; body = body }

body_sent :
    (r : HttpResponse)
    → status_code_allows_body r.status_code ≡ true
    → (sent_body true r ≡ r.body) × (announced r ≡ length r.body)
body_sent r allows = (rw allows refl, rw allows refl)

empty_body : (body : Bytes) → (length body == 0) ≡ true → body ≡ []
empty_body [] h = refl
empty_body (x ∷ xs) h = absurd (ground arith)

no_body_sent :
    (r : HttpResponse) → status_code_allows_body r.status_code ≡ false → sent_body true r ≡ []
no_body_sent r h = rw h refl

-- The rounds from the empty line on.
pub completes :
    (o : HttpParserOptions) (r : HttpResponse) (b : Buffer) (rest : Bytes)
    → IsValid b
    → IsSendable r
    → contents b ≡ b'\r' ∷ b'\n' ∷ (sent_body true r ++ rest)
    → length (fields_text (sent_fields false r)) + 2 ≤ o.max_headers
    → announced r ≤ o.max_body
    → o.max_body < 2 ^ 64
    → Completes o r b rest
unfolding after_headers round_in new_response
completes o r b rest v s e within body_within fits =
    let blank = blank_round o r b (sent_body true r ++ rest) v e within in
    let finished = finish_sent o r s body_within fits in
    let line = line_at [] (sent_body true r ++ rest) b v (IsLine-plain [] tt) e in
    elim (Bool-cases (status_code_allows_body r.status_code)) [
      | inl allows ↦ elim (Bool-cases (length r.body == 0)) [
        | inl h ↦
            let no_bytes = (body_sent r allows).0 ∙ empty_body r.body h in
            record {
              last_parser = at_end o r;
              last_buffer = b;
              parser = record (put_content_length (announced r) (counted_end o r)) {
                state = completed;
              };
              buffer = retrieve_until 2 b;
              runs = arrived;
              returned = blank ∙ (rw (finished, allows, h) refl);
              message = ap (message_of r (announced r)) (sym no_bytes);
              rest_left = line.left ∙ ap (λ t. t ++ rest) no_bytes;
            }
        | inr h ↦
            let (round, left) =
              body_round o r (retrieve_until 2 b) rest line.valid
                (line.left ∙ ap (λ t. t ++ rest) (body_sent r allows).0) in
            record {
              last_parser = before_body o r;
              last_buffer = retrieve_until 2 b;
              parser = record (put_body r.body (before_body o r)) { state = completed };
              buffer = (retrieve_as_string (length r.body) (retrieve_until 2 b)).1;
              runs = then_runs (blank ∙ (rw (finished, allows, h) refl)) arrived;
              returned = round;
              message = sym (ap₂ (message_of r) (body_sent r allows).1 (body_sent r allows).0);
              rest_left = left;
            }
      ]
      | inr h ↦ record {
        last_parser = at_end o r;
        last_buffer = b;
        parser = record (put_content_length (announced r) (counted_end o r)) { state = completed };
        buffer = retrieve_until 2 b;
        runs = arrived;
        returned = blank ∙ (rw (finished, h) refl);
        message = ap (message_of r (announced r)) (sym (no_body_sent r h));
        rest_left = line.left ∙ ap (λ t. t ++ rest) (no_body_sent r h);
      }
    ]
