-- ===== src/Http/Parser/Fields.antt =====
-- The header lines: what is written as `field: value` is read as that field and that value.
use oklib.Common.{
  ◌==◌, le→ltb, length, All, length-append, take-append_exact, drop-append_add, All-append, Bytes,
  ℕ, ◌+◌, ◌≤◌, ◌≡◌, refl, ◌≢◌, true, false, some, [], ◌∷◌, ◌++◌, arith,
}
use oklib.Buffer.Crlf.{IsLine, IsLine-plain, line_at}
use oklib.Http.Text.{
  is_ows, within, is_alnum, is_token_char, is_empty, trim_front, trim_ows, all_token,
}
use oklib.Http.Headers.{HttpHeaders, add, Entry}
use oklib.Http.Response.{field_line}
use oklib.Http.Parser.Lines.{starts_blank, split_header_line, parse_header_line}
use oklib.Buffer.{contents, retrieve_until, Buffer}
use oklib.Buffer.Invariant.{IsValid}
use oklib.Http.Text.Split.{find-append}
use oklib.Http.Parser.{message_headers, put_headers, HttpParser}
use oklib.Http.Parser.Loop.{header_line_round, headers_round, continues}
use oklib.Http.Text.Trim.{trim_ows_plain}

-- No token character is a separator, a blank or a CR.
abbrev IsPlain : ℕ → Type 0
IsPlain c = (c ≢ b':') × (c ≢ b'\r') × (is_ows c ≡ false)

token_char-IsPlain : (c : ℕ) → is_token_char c ≡ true → IsPlain c
unfolding is_token_char is_alnum is_ows
token_char-IsPlain c h = ground arith

all_token-IsPlain : (s : Bytes) → all_token s ≡ true → All IsPlain s
unfolding all_token
all_token-IsPlain [] h = tt
all_token-IsPlain (c ∷ cs) h =
    (token_char-IsPlain c (ground arith), all_token-IsPlain cs (ground arith))

All-weaken : {P Q : ℕ → Type 0} (s : Bytes) → ((c : ℕ) → P c → Q c) → All P s → All Q s
All-weaken [] f h = tt
All-weaken (c ∷ cs) f h = (f c h.0, All-weaken cs f h.1)

-- A field that may be sent: a token, and a value without CR.
pub record IsField (f : Bytes × Bytes) : Type 0 where
  pub named : is_empty f.0 ≡ false
  pub token : all_token f.0 ≡ true
  pub no_cr : All (λ c. c ≢ b'\r') f.1

pub field_line-IsLine : (f : Bytes × Bytes) → IsField f → IsLine (field_line f)
field_line-IsLine (name, value) h = IsLine-plain (field_line (name, value)) (
    All-append _ name (b':' ∷ b' ' ∷ value)
      (All-weaken name (λ c p. p.1) (all_token-IsPlain name h.token))
      ((λ e. absurd (omega (arith, e))), ((λ e. absurd (omega (arith, e))), h.no_cr)))

named_not_blank :
    (name rest : Bytes)
    → is_empty name ≡ false
    → All IsPlain name
    → (starts_blank (name ++ rest) ≡ false) × ((length name == 0) ≡ false)
unfolding is_empty is_ows
named_not_blank [] rest h plain = absurd (ground arith)
named_not_blank (c ∷ cs) rest h plain = (ground (arith, (plain.0).2), ground arith)

split_header_line-field_line :
    (f : Bytes × Bytes) → IsField f → split_header_line (field_line f) ≡ some (f.0, b' ' ∷ f.1)
unfolding split_header_line
split_header_line-field_line (name, value) h =
    let plain = all_token-IsPlain name h.token in
    let tail = b':' ∷ b' ' ∷ value in
    let (no_blank, filled) = named_not_blank name tail h.named plain in
    rw
      (
        no_blank,
        find-append b':' name (b' ' ∷ value) (All-weaken name (λ c p. p.0) plain),
        take-append_exact (length name) name tail refl,
        h.token,
        filled,
        drop-append_add name tail 1,
        split_header_line,
      )
      refl

-- The entry that a field becomes.
abbrev pub entry_of : Bytes × Bytes → Entry
entry_of (name, value) = record { field = name; value = trim_ows value }

trim_ows-blank : (s : Bytes) → trim_ows (b' ' ∷ s) ≡ trim_ows s
unfolding trim_ows trim_front is_ows
trim_ows-blank s = refl

add_field :
    (f : Bytes × Bytes) (hs : HttpHeaders)
    → IsField f
    → add f.0 (b' ' ∷ f.1) hs ≡ hs ++ (entry_of f ∷ [])
unfolding add
add_field (name, value) hs h =
    rw
      (
        trim_ows-blank value,
        trim_ows_plain name (All-weaken name (λ c p. p.2) (all_token-IsPlain name h.token)),
      )
      refl

-- The parser behind a field.
abbrev pub after_field : Bytes × Bytes → HttpParser → HttpParser
after_field f p =
    put_headers (message_headers p ++ (entry_of f ∷ []))
      (record p { header_bytes = p.header_bytes + (length (field_line f) + 2) })

field_line_filled : (f : Bytes × Bytes) → (length (field_line f) == 0) ≡ false
field_line_filled (name, value) = ground (arith, length-append name (b':' ∷ b' ' ∷ value))

parse_field_line :
    (f : Bytes × Bytes) (p : HttpParser)
    → IsField f
    → parse_header_line (field_line f) p
      ≡ (true, put_headers (message_headers p ++ (entry_of f ∷ [])) p)
unfolding parse_header_line
parse_field_line f p h =
    rw (split_header_line-field_line f h, parse_header_line, add_field f (message_headers p) h) refl

-- The round over the line of a field.
pub field_round :
    (p : HttpParser) (b : Buffer) (f : Bytes × Bytes) (rest : Bytes)
    → IsValid b
    → IsField f
    → contents b ≡ field_line f ++ b'\r' ∷ b'\n' ∷ rest
    → p.header_bytes + (length (field_line f) + 2) ≤ p.options.max_headers
    → headers_round p b ≡ continues (after_field f p) (retrieve_until (length (field_line f) + 2) b)
unfolding headers_round header_line_round
field_round p b f rest v h e within =
    let line = line_at (field_line f) rest b v (field_line-IsLine f h) e in
    let counted : HttpParser = record p {
      header_bytes = p.header_bytes + (length (field_line f) + 2);
    } in
    rw
      (
        line.found,
        headers_round,
        line.taken,
        field_line_filled f,
        parse_field_line f counted h,
        le→ltb p.options.max_headers (p.header_bytes + (length (field_line f) + 2)) within,
      )
      refl
