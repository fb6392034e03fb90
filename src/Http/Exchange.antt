-- ===== src/Http/Exchange.antt =====
-- A response on its way: what src/http/http_response.cpp appends, src/http/http_parser.cpp reads.
pub mod StatusLine
pub mod Framed
pub mod Head
pub mod Body
pub mod RoundTrip
use oklib.Common.{if◌then◌else◌, length, All, Bytes, codes, ℕ, ◌≤◌, ◌<◌, ◌≡◌, ◌≢◌, false}
use oklib.Http.Numbers.{nonneg}
use oklib.Http.Headers.{equals_ignore_case}
use oklib.Http.Response.{reason_phrase, HttpResponse}
use oklib.Http.Parser.Framing.{status_code_allows_body}
use oklib.Http.Parser.Fields.{IsField}

-- A field that says nothing about where the message ends.
abbrev pub IsUnframed : Bytes × Bytes → Type 0
IsUnframed f =
    (equals_ignore_case f.0 (codes "Content-Length") ≡ false)
    × (equals_ignore_case f.0 (codes "Transfer-Encoding") ≡ false)

-- A response that the classes can exchange: a status of three digits, fields that are tokens and
-- values without CR, and none of the two fields that the class adds itself.
pub record IsSendable (r : HttpResponse) : Type 0 where
  pub code : ℕ
  pub status : r.status_code ≡ nonneg code
  pub low : 100 ≤ code
  pub high : code < 1000
  pub reason : All (λ c. c ≢ b'\r') (reason_phrase r)
  pub fields : All IsField r.headers
  pub unframed : All IsUnframed r.headers

-- The length that the response announces.
abbrev pub announced : HttpResponse → ℕ
announced r = if status_code_allows_body r.status_code then length r.body else 0
