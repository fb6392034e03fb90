-- ===== src/Http/Exchange/StatusLine.antt =====
-- The status line.
use oklib.Common.{
  length, drop, take-append_exact, drop-append_add, All-append, Bytes, codes, ℕ, ◌+◌, ◌<◌, ◌≡◌,
  refl, sym, ap, subst, ◌∙◌, ◌≢◌, true, some, ◌∷◌, ◌++◌, arith,
}
use oklib.Buffer.Crlf.{IsLine, IsLine-plain}
use oklib.Http.Numbers.{from_chars_int, digit_char, to_chars, Int32}
use oklib.Http.Request.{http11}
use oklib.Http.Response.{to_string, reason_phrase, status_line, HttpResponse}
use oklib.Http.Parser.{HttpParser}
use oklib.Http.Parser.Lines.{
  parse_version, status_token, reason_of, parse_status, parse_response_line,
}
use oklib.Http.Exchange.{IsSendable}
use oklib.Http.Text.{equal, find, find_from}
use oklib.Http.Text.Split.{Lacks, find-append, lacks-Lacks}
use oklib.Http.Numbers.Print.{All-decimal, from_chars_int-to_chars}

digit_plain : (d : ℕ) → d < 16 → (digit_char d ≢ b'\r') × (digit_char d ≢ b' ')
unfolding digit_char
digit_plain d h = ground arith

status_line_of :
    (r : HttpResponse) (s : IsSendable r)
    → status_line r ≡ codes "HTTP/1.1 " ++ (to_chars 10 s.code ++ b' ' ∷ reason_phrase r)
unfolding status_line to_string
status_line_of r s = rw s.status refl

pub status_line-IsLine : (r : HttpResponse) → IsSendable r → IsLine (status_line r)
status_line-IsLine r s = rw (status_line_of r s) (
    IsLine-plain (codes "HTTP/1.1 " ++ (to_chars 10 s.code ++ b' ' ∷ reason_phrase r)) (
      All-append _ (codes "HTTP/1.1 ") (to_chars 10 s.code ++ b' ' ∷ reason_phrase r)
        (lacks-Lacks b'\r' (codes "HTTP/1.1 ") refl)
        (All-append _ (to_chars 10 s.code) (b' ' ∷ reason_phrase r)
          (All-decimal _ (λ d h. (digit_plain d h).0) s.code)
          ((λ e. absurd (omega (arith, e))), s.reason))))

-- Where the second space stands, the token ends and the reason begins.
tokens_of :
    (token reason : Bytes)
    → length token ≡ 3
    → Lacks b' ' token
    → let line = codes "HTTP/1.1 " ++ (token ++ b' ' ∷ reason) in
      (status_token 8 line ≡ token) × (reason_of 8 line ≡ reason)
unfolding status_token reason_of find_from
tokens_of token reason three no_space =
    let found = find-append b' ' token reason no_space in
    (
      rw (found, three, status_token) (take-append_exact 3 token (b' ' ∷ reason) (sym three)),
      rw (found, three, reason_of)
          (subst (λ k. drop (k + 1) (token ++ b' ' ∷ reason) ≡ reason) three
            (drop-append_add token (b' ' ∷ reason) 1)),
    )

-- A line with a status of three characters.
parse_line_of :
    (token reason : Bytes) (status : Int32) (p : HttpParser)
    → length token ≡ 3
    → Lacks b' ' token
    → from_chars_int token ≡ some status
    → parse_response_line (codes "HTTP/1.1 " ++ (token ++ b' ' ∷ reason)) p ≡ (
      true,
      record p {
        resp = record (p.resp) { version = http11; status_code = status; reason_phrase = reason };
      },
    )
unfolding parse_response_line parse_version equal parse_status
parse_line_of token reason status p three no_space read =
    let line = codes "HTTP/1.1 " ++ (token ++ b' ' ∷ reason) in
    let first : find b' ' line ≡ some 8 =
      find-append b' ' (codes "HTTP/1.1") (token ++ b' ' ∷ reason)
        (lacks-Lacks b' ' (codes "HTTP/1.1") refl) in
    let (token_read, reason_read) = tokens_of token reason three no_space in
    rw (first, parse_response_line, token_read, three, read, reason_read) refl

-- The parser takes the version, the status and the reason off the line.
pub parse_status_line :
    (r : HttpResponse) (s : IsSendable r) (p : HttpParser)
    → parse_response_line (status_line r) p ≡ (
      true,
      record p {
        resp = record (p.resp) {
          version = http11;
          status_code = r.status_code;
          reason_phrase = reason_phrase r;
        };
      },
    )
parse_status_line r s p =
    let (three, read) = from_chars_int-to_chars s.code s.low s.high in
    rw (status_line_of r s) (
      parse_line_of (to_chars 10 s.code) (reason_phrase r) r.status_code p three
        (All-decimal _ (λ d h. (digit_plain d h).1) s.code) (read ∙ ap some (sym s.status)))
