-- ===== src/Http/Url.antt =====
-- src/http/url_encoding.cpp. A `char` at or above 0x80 is no hexadecimal digit under either sign.
pub mod Decode
use oklib.Common.{
  ◌==◌, if◌then◌else◌, take, drop, Bytes, codes, ℕ, ◌+◌, ◌-◌, ◌*◌, ◌^◌, bit_or, Bool, true, false,
  not, ◌&&◌, Option, none, some, [], ◌∷◌,
}
use oklib.Http.Text.{within, lowercase, equal, find, find_from}

pub data UrlDecodeMode : Type 0 where
  percent form : UrlDecodeMode

-- `hex_digit_value`; `none` is -1.
unfoldable pub hex_digit_value : ℕ → Option ℕ
hex_digit_value ch =
    if within b'0' b'9' ch
    then some (ch - b'0')
    else if within b'a' b'f' ch
    then some (ch - b'a' + 10)
    else if within b'A' b'F' ch
    then some (ch - b'A' + 10)
    else none

-- The byte of the two digits behind a percent sign, where there are two.
unfoldable pub escaped : ℕ → ℕ → Option ℕ
escaped c1 c2 = elim (hex_digit_value c1) [
  | none ↦ none
  | some high ↦ elim (hex_digit_value c2) [
    | none ↦ none
    | some low ↦ some (bit_or (high * 2 ^ 4) low)
  ]
]

abbrev is_form : UrlDecodeMode → Bool
is_form form = true
is_form percent = false

-- A byte that begins no escape.
unfoldable pub plain : UrlDecodeMode → ℕ → ℕ
plain mode c = if is_form mode && c == b'+' then b' ' else c

unfoldable pub url_decode : UrlDecodeMode → Bytes → Bytes
url_decode mode [] = []
url_decode mode (c ∷ []) = plain mode c ∷ []
url_decode mode (c ∷ c1 ∷ []) = plain mode c ∷ plain mode c1 ∷ []
url_decode mode (c ∷ c1 ∷ c2 ∷ rest) =
    let skipped = url_decode mode rest in
    let next = url_decode mode (c1 ∷ c2 ∷ rest) in
    elim (if c == b'%' then escaped c1 c2 else none) [
      | none ↦ plain mode c ∷ next
      | some byte ↦ byte ∷ skipped
    ]

-- `charset'language'text`.
unfoldable pub decode_rfc5987_value : Bytes → Option Bytes
decode_rfc5987_value input = elim (find b'\'' input) [
  | none ↦ none
  | some charset_end ↦ elim (find_from b'\'' (charset_end + 1) input) [
    | none ↦ none
    | some language_end ↦
        let charset = lowercase (take charset_end input) in
        if not (equal charset (codes "utf-8")) && not (equal charset (codes "us-ascii"))
        then none
        else some (url_decode percent (drop (language_end + 1) input))
  ]
]
