-- ===== src/Http/Exchange/Head.antt =====
-- The rounds of a fresh parser over the head of a response.
use oklib.Common.{
  le→ltb, length, All, length-append, Bytes, ℕ, ◌+◌, ◌≤◌, ◌≡◌, refl, sym, ap₂, subst, ◌∙◌, false,
  List, [], ◌∷◌, ◌++◌, map, append-nil, append_assoc, arith,
}
use oklib.Buffer.{contents, retrieve_until, Buffer}
use oklib.Buffer.Invariant.{IsValid}
use oklib.Buffer.Crlf.{line_at}
use oklib.Http.Headers.{HttpHeaders}
use oklib.Http.Request.{new_request, http11}
use oklib.Http.Response.{reason_phrase, status_line, field_line, HttpResponse}
use oklib.Http.Response.Rendered.{fields_text}
use oklib.Http.Parser.{
  new_response, new_parser, HttpParserOptions, HttpResponseMessage, HttpParser, response, no_error,
  headers,
}
use oklib.Http.Parser.Loop.{parse_start_line, start_line_round, round_in, continues}
use oklib.Http.Parser.Runs.{Runs, arrived, then_runs}
use oklib.Http.Parser.Fields.{field_line-IsLine, entry_of, field_round, IsField}
use oklib.Http.Parser.Chunks.{rounds}
use oklib.Http.Exchange.{IsSendable}
use oklib.Http.Exchange.StatusLine.{status_line-IsLine, parse_status_line}

-- A parser that is reading the fields of the message `m` and has counted `n` bytes of them.
abbrev pub reading : HttpParserOptions → HttpResponseMessage → ℕ → HttpParser
reading o m n = record {
  mode = response;
  options = o;
  state = headers;
  last_error = no_error;
  req = new_request;
  resp = m;
  header_bytes = n;
  fixed_body_bytes = 0;
  current_chunk_size = 0;
  decoded_body_bytes = 0;
  chunked = false;
  head_only = false;
}

-- The message with the status line of `r` and the fields `hs`.
abbrev pub started : HttpResponse → HttpHeaders → HttpResponseMessage
started r hs = record new_response {
  version = http11;
  status_code = r.status_code;
  reason_phrase = reason_phrase r;
  headers = hs;
}

pub start_round :
    (o : HttpParserOptions) (r : HttpResponse) (b : Buffer) (rest : Bytes)
    → IsValid b
    → IsSendable r
    → contents b ≡ status_line r ++ b'\r' ∷ b'\n' ∷ rest
    → length (status_line r) ≤ o.max_start_line
    → rounds 0 (new_parser response o) b
      ≡ continues (reading o (started r []) 0) (retrieve_until (length (status_line r) + 2) b)
unfolding round_in start_line_round parse_start_line new_parser new_response
start_round o r b rest v s e within =
    let line = line_at (status_line r) rest b v (status_line-IsLine r s) e in
    rw
      (
        line.found,
        start_line_round,
        line.taken,
        le→ltb o.max_start_line (length (status_line r)) within,
        parse_status_line r s (new_parser response o),
      )
      refl

pub moved :
    (o : HttpParserOptions) (r : HttpResponse) {hs ks : HttpHeaders} {m n : ℕ} {p : HttpParser}
    {b c : Buffer}
    → hs ≡ ks
    → m ≡ n
    → Runs (rounds 0) (reading o (started r hs) m) c p b
    → Runs (rounds 0) (reading o (started r ks) n) c p b
moved o r {p = p} {b = b} {c = c} e f =
    subst (λ q. Runs (rounds 0) q c p b) (ap₂ (λ xs k. reading o (started r xs) k) e f)

fields_text-append :
    (f : Bytes × Bytes) (fs : List (Bytes × Bytes)) (rest : Bytes)
    → fields_text (f ∷ fs) ++ rest ≡ field_line f ++ b'\r' ∷ b'\n' ∷ (fields_text fs ++ rest)
unfolding fields_text
fields_text-append f fs rest = append_assoc (field_line f) (b'\r' ∷ b'\n' ∷ fields_text fs) rest

length-fields_text :
    (f : Bytes × Bytes) (fs : List (Bytes × Bytes))
    → length (fields_text (f ∷ fs)) ≡ length (field_line f) + 2 + length (fields_text fs)
unfolding fields_text
length-fields_text f fs =
    omega (arith, length-append (field_line f) (b'\r' ∷ b'\n' ∷ fields_text fs))

-- The run over the lines of the fields.
pub fields_run :
    (o : HttpParserOptions) (r : HttpResponse) (hs : HttpHeaders) (n : ℕ) (b : Buffer)
    (fs : List (Bytes × Bytes)) (rest : Bytes)
    → IsValid b
    → All IsField fs
    → contents b ≡ fields_text fs ++ rest
    → n + length (fields_text fs) ≤ o.max_headers
    → (c : Buffer) × IsValid c
      × (contents c ≡ rest)
      × Runs
          (rounds 0)
          (reading o (started r (hs ++ map entry_of fs)) (n + length (fields_text fs)))
          c
          (reading o (started r hs) n)
          b
unfolding round_in fields_text
fields_run o r hs n b [] rest v h e within =
    (b, v, e, moved o r (sym (append-nil hs)) (omega arith) arrived)
fields_run o r hs n b (f ∷ fs) rest v h e within =
    let e' = e ∙ fields_text-append f fs rest in
    let line = line_at (field_line f) (fields_text fs ++ rest) b v (field_line-IsLine f h.0) e' in
    let counted = length-fields_text f fs in
    let first =
      field_round (reading o (started r hs) n) b f (fields_text fs ++ rest) v h.0 e'
        (omega (arith, counted)) in
    let (c, w, left, more) =
      fields_run o r (hs ++ (entry_of f ∷ [])) (n + (length (field_line f) + 2))
        (retrieve_until (length (field_line f) + 2) b) fs rest line.valid h.1 line.left
        (omega (arith, counted)) in
    (
      c,
      w,
      left,
      moved o r (append_assoc hs (entry_of f ∷ []) (map entry_of fs)) (omega (arith, counted))
          (then_runs first more),
    )
