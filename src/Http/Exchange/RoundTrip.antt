-- ===== src/Http/Exchange/RoundTrip.antt =====
-- A response is read back as it was sent.
use oklib.Common.{
  length, Bytes, ◌+◌, ◌^◌, ◌≤◌, ◌<◌, ◌≡◌, refl, ap, ◌∙◌, true, false, some, [], ◌∷◌, ◌++◌,
  append_assoc, arith,
}
use oklib.Buffer.{contents, retrieve_until, Buffer}
use oklib.Buffer.Invariant.{IsValid}
use oklib.Buffer.Crlf.{line_at}
use oklib.Http.Response.{status_line, append_to_buffer, HttpResponse}
use oklib.Http.Response.Rendered.{
  fields_text, sent_fields, head_text, sent_body, contents-append_to_buffer,
}
use oklib.Http.Parser.{new_parser, HttpParserOptions, HttpParser, response, complete}
use oklib.Http.Parser.Loop.{parse, parse_response}
use oklib.Http.Parser.Runs.{Runs-trans, loop-returns, then_runs}
use oklib.Http.Parser.Chunks.{rounds}
use oklib.Http.Exchange.{announced, IsSendable}
use oklib.Http.Exchange.Framed.{sent_fields-IsField}
use oklib.Http.Exchange.Head.{start_round, moved, fields_run}
use oklib.Http.Exchange.Body.{received_message, completes}
use oklib.Http.Parser.Progress.{round-Advances}
use oklib.Http.Exchange.StatusLine.{status_line-IsLine}

regroup :
    (line fields body rest : Bytes)
    → ((line ++ b'\r' ∷ b'\n' ∷ (fields ++ b'\r' ∷ b'\n' ∷ [])) ++ body) ++ rest
      ≡ line ++ b'\r' ∷ b'\n' ∷ (fields ++ b'\r' ∷ b'\n' ∷ (body ++ rest))
regroup line fields body rest =
    let end = b'\r' ∷ b'\n' ∷ [] in
    append_assoc (line ++ b'\r' ∷ b'\n' ∷ (fields ++ end)) body rest
    ∙ append_assoc line (b'\r' ∷ b'\n' ∷ (fields ++ end)) (body ++ rest)
    ∙ ap (λ t. line ++ b'\r' ∷ b'\n' ∷ t) (append_assoc fields end (body ++ rest))

-- A response that has been appended to an empty buffer, in front of anything else, is read by a
-- fresh parser as it was sent: the status, the reason, the fields in their order, the announced
-- length, and the body where the status allows one; exactly the bytes behind it are left. The
-- response is one that the classes can exchange, and it is within the limits of the parser.
pub parse_response-append :
    (o : HttpParserOptions) (r : HttpResponse) (out b : Buffer) (rest : Bytes)
    → IsValid out
    → contents out ≡ []
    → IsValid b
    → contents b ≡ contents (append_to_buffer true r out) ++ rest
    → IsSendable r
    → length (status_line r) ≤ o.max_start_line
    → length (fields_text (sent_fields false r)) + 2 ≤ o.max_headers
    → announced r ≤ o.max_body
    → o.max_body < 2 ^ 64
    → (q : HttpParser) × (c : Buffer) × (parse_response (new_parser response o) b
        ≡ some (record { status = complete; parser = q; buffer = c }))
      × (q.resp ≡ received_message r)
      × (contents c ≡ rest)
unfolding parse_response parse new_parser
parse_response-append o r out b rest u empty v e s start within body_within fits =
    let (w, text) = contents-append_to_buffer true r out u in
    let fs = sent_fields false r in
    let tail = b'\r' ∷ b'\n' ∷ (sent_body true r ++ rest) in
    let e' =
      e
      ∙ ap (λ t. t ++ rest) (text ∙ ap (λ t. t ++ (head_text false r ++ sent_body true r)) empty)
      ∙ regroup (status_line r) (fields_text fs) (sent_body true r) rest in
    let line = line_at (status_line r) (fields_text fs ++ tail) b v (status_line-IsLine r s) e' in
    let first = start_round o r b (fields_text fs ++ tail) v s e' start in
    let (c, w', left, more) =
      fields_run o r [] 0 (retrieve_until (length (status_line r) + 2) b) fs tail line.valid
        (sent_fields-IsField r s) line.left (omega arith) in
    let done = completes o r c rest w' s left within body_within fits in
    (
      done.parser,
      done.buffer,
      loop-returns (rounds 0) (λ q d. round-Advances q.state 0 q d) complete done.parser done.buffer
          (then_runs first (Runs-trans (moved o r refl (omega arith) more) done.runs)) done.returned
          v,
      done.message,
      done.rest_left,
    )
