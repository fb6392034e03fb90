-- ===== src/Http/Multipart/Streaming/Findings.antt =====
-- Where the streaming parser does not do what it is for.
use oklib.Common.{
  length, take, drop, take-append_exact, drop-append_exact, drop-append_add, Bytes, ℕ, ◌+◌, ◌%◌,
  ◌^◌, ◌≤◌, ◌<◌, ◌≡◌, refl, ap, ◌∙◌, true, false, some, List, [], ◌∷◌, ◌++◌, arith,
}
use oklib.Http.Text.{is_empty}
use oklib.Http.Multipart.Values.{find_text, crlf}
use oklib.Http.Multipart.Search.{EndsAt, find_text-EndsAt}
use oklib.Http.Multipart.Streaming.{
  is_file, gives, failed, emit_data, end_part, process_body, append_data, StreamingParser,
  Processing, boundary_suffix, done, StreamEvent,
}

emit_data_over :
    (chunk : Bytes) (p : StreamingParser)
    → is_file p.current_part ≡ false
    → 1 ≤ length chunk
    → p.options.max_field_bytes < p.current_field_bytes + length chunk
    → p.current_field_bytes + length chunk < 2 ^ 64
    → emit_data chunk p ≡ (
      [],
      failed (record p { current_field_bytes = (p.current_field_bytes + length chunk) % 2 ^ 64 }),
    )
unfolding emit_data is_empty
emit_data_over [] p is_field filled over fits = absurd (omega arith)
emit_data_over (x ∷ xs) p is_field filled over fits = ground (arith, is_field)

body_ends :
    (p : StreamingParser) (n : ℕ)
    → find_text p.delimiter p.buffer ≡ some n
    → process_body p ≡ end_part n p
unfolding process_body
body_ends p n e = rw (e, process_body) refl

end_over :
    (p : StreamingParser) (n counted : ℕ)
    → emit_data (take n p.buffer) p ≡ ([], failed (record p { current_field_bytes = counted }))
    → end_part n p
      ≡ gives true [] (record p {
        current_field_bytes = counted;
        error_seen = true;
        buffer = drop (n + length p.delimiter) p.buffer;
        state = boundary_suffix;
      })
unfolding end_part
end_over p n counted e =
    ap
      (λ (x : List StreamEvent × StreamingParser). gives true x.0 (record (x.1) {
        buffer = drop (n + length (x.1).delimiter) (x.1).buffer;
        state = boundary_suffix;
      }))
      e

-- A field that is no file, and whose bytes are more than the limit allows, with its delimiter in
-- the buffer behind them: the round records the error, and goes on behind the delimiter as if the
-- field had been within the limit.
pub process_body-over_limit :
    (p : StreamingParser) (field rest : Bytes)
    → is_file p.current_part ≡ false
    → EndsAt p.delimiter field
    → 1 ≤ length p.delimiter
    → p.buffer ≡ field ++ (p.delimiter ++ rest)
    → p.options.max_field_bytes < p.current_field_bytes + length field
    → p.current_field_bytes + length field < 2 ^ 64
    → 1 ≤ length field
    → ((process_body p).result ≡ true)
      × ((process_body p).parser.error_seen ≡ true)
      × ((process_body p).parser.state ≡ boundary_suffix)
      × ((process_body p).parser.buffer ≡ rest)
process_body-over_limit p field rest is_field ends d e over fits filled =
    let found = ap (find_text p.delimiter) e ∙ find_text-EndsAt p.delimiter field rest ends d in
    let whole =
      ap (take (length field)) e
      ∙ take-append_exact (length field) field (p.delimiter ++ rest) refl in
    let emitted =
      ap (λ bytes. emit_data bytes p) whole ∙ emit_data_over field p is_field filled over fits in
    let ended = body_ends p (length field) found ∙ end_over p (length field) _ emitted in
    (
      ap (λ (r : Processing). r.result) ended,
      ap (λ (r : Processing). r.parser.error_seen) ended,
      ap (λ (r : Processing). r.parser.state) ended,
      ap (λ (r : Processing). r.parser.buffer) ended
          ∙ ap (drop (length field + length p.delimiter)) e
          ∙ drop-append_add field (p.delimiter ++ rest) (length p.delimiter)
          ∙ drop-append_exact (length p.delimiter) p.delimiter rest refl,
    )

-- The rest of the last boundary's line is refused where it comes in a piece of its own, while
-- `end_body` takes it where it comes with the boundary.
pub append_data-after_end :
    (p : StreamingParser) → p.state ≡ done → append_data crlf p ≡ some (gives false [] p)
unfolding append_data is_empty
append_data-after_end p e = ground (arith, e)
