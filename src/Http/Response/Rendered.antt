-- ===== src/Http/Response/Rendered.antt =====
-- The text of a response, and that it is what the buffer receives.
use oklib.Common.{
  if◌then◌else◌, Bool-cases, Bytes, ◌≡◌, sym, ap, ◌∙◌, inl, inr, Bool, false, ◌&&◌, List, [], ◌∷◌,
  ◌++◌, append-nil, append_assoc,
}
use oklib.Buffer.{contents, append, Buffer}
use oklib.Buffer.Invariant.{append-IsValid, IsValid}
use oklib.Buffer.Contents.{contents-append}
use oklib.Http.Response.{
  crlf_line, status_line, field_line, connection_field, framing_field, append_fields,
  append_headers_to_buffer, append_to_buffer, HttpResponse,
}
use oklib.Http.Parser.Framing.{status_code_allows_body}

-- The fields as they are sent.
unfoldable pub fields_text : List (Bytes × Bytes) → Bytes
fields_text [] = []
fields_text (f ∷ fs) = field_line f ++ b'\r' ∷ b'\n' ∷ fields_text fs

abbrev pub sent_fields : Bool → HttpResponse → List (Bytes × Bytes)
sent_fields chunked r = connection_field r ∷ framing_field chunked r ∷ r.headers

-- The head: the status line, the fields, the empty line.
abbrev pub head_text : Bool → HttpResponse → Bytes
head_text chunked r =
    status_line r ++ b'\r' ∷ b'\n' ∷ (fields_text (sent_fields chunked r) ++ b'\r' ∷ b'\n' ∷ [])

line_append : (line tail : Bytes) → crlf_line line ++ tail ≡ line ++ b'\r' ∷ b'\n' ∷ tail
line_append line tail = append_assoc line (b'\r' ∷ b'\n' ∷ []) tail

contents-append_fields :
    (fs : List (Bytes × Bytes)) (b : Buffer)
    → IsValid b
    → IsValid (append_fields fs b) × (contents (append_fields fs b) ≡ contents b ++ fields_text fs)
unfolding append_fields fields_text
contents-append_fields [] b v = (v, sym (append-nil (contents b)))
contents-append_fields (f ∷ fs) b v =
    let line = crlf_line (field_line f) in
    let (w, e) = contents-append_fields fs (append line b) (append-IsValid line b v) in
    (
      w,
      e
          ∙ ap (λ t. t ++ fields_text fs) (contents-append line b v)
          ∙ append_assoc (contents b) line (fields_text fs)
          ∙ ap (◌++◌ (contents b)) (line_append (field_line f) (fields_text fs)),
    )

contents-append_headers :
    (chunked : Bool) (r : HttpResponse) (b : Buffer)
    → IsValid b
    → IsValid (append_headers_to_buffer chunked r b)
      × (contents (append_headers_to_buffer chunked r b) ≡ contents b ++ head_text chunked r)
unfolding append_headers_to_buffer append_fields
contents-append_headers chunked r b v =
    let line = crlf_line (status_line r) in
    let end = b'\r' ∷ b'\n' ∷ [] in
    let fs = sent_fields chunked r in
    let (w, e) = contents-append_fields fs (append line b) (append-IsValid line b v) in
    let headed = append_fields fs (append line b) in
    (
      append-IsValid end headed w,
      contents-append end headed w
          ∙ ap (λ t. t ++ end) (e ∙ ap (λ t. t ++ fields_text fs) (contents-append line b v))
          ∙ append_assoc (contents b ++ line) (fields_text fs) end
          ∙ append_assoc (contents b) line (fields_text fs ++ end)
          ∙ ap (◌++◌ (contents b)) (line_append (status_line r) (fields_text fs ++ end)),
    )

-- The body is sent with the head, unless it is left out or the status has none.
abbrev pub sent_body : Bool → HttpResponse → Bytes
sent_body include_body r =
    if include_body && status_code_allows_body r.status_code then r.body else []

-- A response is appended as its head and its body, behind what the buffer holds.
pub contents-append_to_buffer :
    (include_body : Bool) (r : HttpResponse) (b : Buffer)
    → IsValid b
    → IsValid (append_to_buffer include_body r b)
      × (contents (append_to_buffer include_body r b)
          ≡ contents b ++ (head_text false r ++ sent_body include_body r))
unfolding append_to_buffer
contents-append_to_buffer include_body r b v =
    let (w, e) = contents-append_headers false r b v in
    let headed = append_headers_to_buffer false r b in
    elim (Bool-cases (include_body && status_code_allows_body r.status_code)) [
      | inl h ↦
          rw (h, append_to_buffer)
            (
              append-IsValid r.body headed w,
              contents-append r.body headed w
                  ∙ ap (λ t. t ++ r.body) e
                  ∙ append_assoc (contents b) (head_text false r) r.body,
            )
      | inr h ↦ rw (h, append_to_buffer, append-nil) (w, e)
    ]
