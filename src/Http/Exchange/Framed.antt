-- ===== src/Http/Exchange/Framed.antt =====
-- The framing field: the parser finds the length that the response announces.
use oklib.Common.{
  Bool-cases, All, Bytes, codes, ℕ, ◌^◌, ◌<◌, ◌≡◌, refl, sym, subst, ◌≢◌, inl, inr, false, some,
  List, [], ◌∷◌, map, arith,
}
use oklib.Http.Text.{is_ows, is_alnum, is_token_char, to_lower, is_empty, trim_ows, all_token}
use oklib.Http.Numbers.{parse_decimal_u64, digit_char, print_digits, to_chars}
use oklib.Http.Numbers.Print.{All-decimal, parse_hex_u64-to_chars}
use oklib.Http.Headers.{HttpHeaders, equals_ignore_case, values}
use oklib.Http.Response.{connection_field, framing_field, HttpResponse}
use oklib.Http.Response.Rendered.{sent_fields}
use oklib.Http.Parser.Framing.{
  parse_all, content_lengths, agree_with, codings_of, transfer_codings, transfer_of,
  is_chunked_transfer, status_code_allows_body, framing,
}
use oklib.Http.Parser.Fields.{entry_of, IsField}
use oklib.Http.Exchange.{IsUnframed, announced, IsSendable}
use oklib.Http.Text.Split.{split_commas_plain, lacks-Lacks}
use oklib.Http.Text.Trim.{trim_ows_plain}

-- Fields of other names give no values.
values_unnamed :
    (name : Bytes) (fs : List (Bytes × Bytes))
    → All (λ f. equals_ignore_case f.0 name ≡ false) fs
    → values name (map entry_of fs) ≡ []
unfolding values
values_unnamed name [] h = refl
values_unnamed name (f ∷ fs) h = ground (arith, h.0, values_unnamed name fs h.1)

All_first :
    (fs : List (Bytes × Bytes))
    → All IsUnframed fs
    → All (λ f. equals_ignore_case f.0 (codes "Content-Length") ≡ false) fs
All_first [] h = tt
All_first (f ∷ fs) h = ((h.0).0, All_first fs h.1)

All_second :
    (fs : List (Bytes × Bytes))
    → All IsUnframed fs
    → All (λ f. equals_ignore_case f.0 (codes "Transfer-Encoding") ≡ false) fs
All_second [] h = tt
All_second (f ∷ fs) h = ((h.0).1, All_second fs h.1)

digit_facts : (d : ℕ) → d < 16 → (is_ows (digit_char d) ≡ false) × (digit_char d ≢ b',')
unfolding is_ows digit_char
digit_facts d h = ground arith

trim_number : (n : ℕ) → trim_ows (to_chars 10 n) ≡ to_chars 10 n
trim_number n = trim_ows_plain (to_chars 10 n) (All-decimal _ (λ d h. (digit_facts d h).0) n)

filled_number : (n : ℕ) → n < 2 ^ 64 → is_empty (to_chars 10 n) ≡ false
unfolding parse_decimal_u64
filled_number n h = ground (arith, (parse_hex_u64-to_chars n h).1, trim_number n)

-- The announced length as a field.
framing_field_of :
    (r : HttpResponse) → framing_field false r ≡ (codes "Content-Length", to_chars 10 (announced r))
unfolding framing_field to_chars print_digits digit_char
framing_field_of r = elim (Bool-cases (status_code_allows_body r.status_code)) [
  | inl h ↦ rw (h, framing_field) refl
  | inr h ↦ rw (h, framing_field) refl
]

-- The fields of the response, as the parser keeps them.
abbrev pub kept_fields : HttpResponse → HttpHeaders
kept_fields r = map entry_of (sent_fields false r)

length_values :
    (r : HttpResponse)
    → IsSendable r
    → values (codes "Content-Length") (kept_fields r) ≡ to_chars 10 (announced r) ∷ []
unfolding values connection_field equals_ignore_case to_lower
length_values r s =
    rw
      (
        framing_field_of r,
        trim_number (announced r),
        values_unnamed (codes "Content-Length") r.headers (All_first r.headers s.unframed),
      )
      refl

transfer_values :
    (r : HttpResponse) → IsSendable r → values (codes "Transfer-Encoding") (kept_fields r) ≡ []
unfolding values connection_field equals_ignore_case to_lower
transfer_values r s =
    rw
      (
        framing_field_of r,
        values_unnamed (codes "Transfer-Encoding") r.headers (All_second r.headers s.unframed),
      )
      refl

content_lengths-sent :
    (r : HttpResponse)
    → IsSendable r
    → announced r < 2 ^ 64
    → content_lengths (kept_fields r) ≡ some (announced r ∷ [])
unfolding content_lengths parse_all
content_lengths-sent r s fits =
    rw
      (
        length_values r s,
        split_commas_plain (to_chars 10 (announced r)) (filled_number (announced r) fits)
            (All-decimal _ (λ d h. (digit_facts d h).1) (announced r))
            (All-decimal _ (λ d h. (digit_facts d h).0) (announced r)),
        (parse_hex_u64-to_chars (announced r) fits).1,
        parse_all,
      )
      refl

-- The parser finds the announced length and no chunks.
pub framing-sent :
    (r : HttpResponse)
    → IsSendable r
    → announced r < 2 ^ 64
    → framing (kept_fields r) ≡ some (some (announced r), false)
unfolding framing agree_with is_chunked_transfer transfer_of transfer_codings codings_of
framing-sent r s fits = rw (content_lengths-sent r s fits, transfer_values r s, framing) refl

connection_field-IsField : (r : HttpResponse) → IsField (connection_field r)
unfolding connection_field is_empty all_token is_token_char is_alnum
connection_field-IsField r = record {
  named = refl;
  token = refl;
  no_cr = elim (Bool-cases r.close_connection) [
    | inl h ↦ simp h (lacks-Lacks b'\r' (codes "close") refl)
    | inr h ↦ simp h (lacks-Lacks b'\r' (codes "Keep-Alive") refl)
  ];
}

digit_no_cr : (d : ℕ) → d < 16 → digit_char d ≢ b'\r'
unfolding digit_char
digit_no_cr d h = ground arith

length_field-IsField : (n : ℕ) → IsField (codes "Content-Length", to_chars 10 n)
unfolding is_empty all_token is_token_char is_alnum
length_field-IsField n = record { named = refl; token = refl; no_cr = All-decimal _ digit_no_cr n }

-- The fields that the class adds are as good as the others.
pub sent_fields-IsField : (r : HttpResponse) → IsSendable r → All IsField (sent_fields false r)
sent_fields-IsField r s = (
  connection_field-IsField r,
  (subst IsField (sym (framing_field_of r)) (length_field-IsField (announced r)), s.fields),
)
