-- ===== src/Http/Parser/Body.antt =====
-- The body: `parse_fixed_body`, `valid_chunk_extensions`, `parse_chunk_size`, `parse_chunk_data`,
-- `parse_trailers`. A call gives its Boolean, the parser and the buffer.
use oklib.Common.{
  ltb, ◌==◌, if◌then◌else◌, length, get_or, take, drop, Bytes, codes, ℕ, zero, suc, ◌+◌, ◌-◌, ◌%◌,
  ◌^◌, Bool, true, false, not, ◌&&◌, ◌||◌, Option, none, some, [], ◌∷◌, ◌++◌,
}
use oklib.Buffer.{
  readable_bytes, contents, find_crlf, retrieve, retrieve_until, retrieve_as_string, Buffer,
}
use oklib.Http.Text.{lowercase, equal, is_empty, find, trim_ows, is_token}
use oklib.Http.Numbers.{parse_hex_u64}
use oklib.Http.Parser.{
  set_error, finish_message, message_body, put_body, HttpParser, bad_header, bad_message_framing,
  body_too_large, chunk_size, chunk_data, trailers,
}
use oklib.Http.Parser.Lines.{parse_trailer_line}

pub record Call : Type 0 where
  pub ok : Bool
  pub parser : HttpParser
  pub buffer : Buffer

abbrev pub called : Bool × HttpParser → Buffer → Call
called (ok, p) b = record { ok = ok; parser = p; buffer = b }

-- `return false` with nothing changed: more bytes are needed.
abbrev pub waits : HttpParser → Buffer → Call
waits p b = called (false, p) b

unfoldable pub parse_fixed_body : HttpParser → Buffer → Call
parse_fixed_body p b =
    let (body, b') = retrieve_as_string p.fixed_body_bytes b in
    if ltb (readable_bytes b) p.fixed_body_bytes
    then waits p b
    else called (finish_message (put_body body p)) b'

-- The inside of a quoted string; the flag is `escaped`.
unfoldable pub quoted_body : Bool → Bytes → Bool
quoted_body escaped [] = not escaped
quoted_body escaped (c ∷ cs) =
    let rest = quoted_body (not escaped && c == b'\\') cs in
    if not escaped && c == b'"' then false else rest

abbrev pub last_is : ℕ → Bytes → Bool
last_is c [] = false
last_is c (x ∷ []) = x == c
last_is c (x ∷ y ∷ xs) = last_is c (y ∷ xs)

abbrev pub first_is : ℕ → Bytes → Bool
first_is c [] = false
first_is c (x ∷ xs) = x == c

unfoldable pub is_quoted_string : Bytes → Bool
is_quoted_string value =
    if ltb (length value) 2 || not (first_is b'"' value) || not (last_is b'"' value)
    then false
    else quoted_body false (take (length value - 2) (drop 1 value))

unfoldable pub valid_chunk_extension_value : Bytes → Bool
valid_chunk_extension_value value =
    let trimmed = trim_ows value in is_token trimmed || is_quoted_string trimmed

-- One extension, `name` or `name=value`, trimmed already.
unfoldable pub valid_chunk_extension : Bytes → Bool
valid_chunk_extension extension = if is_empty extension then false else elim (find b'=' extension) [
  | none ↦ is_token (trim_ows extension)
  | some equals ↦
      is_token (trim_ows (take equals extension))
      && valid_chunk_extension_value (drop (equals + 1) extension)
]

-- The loop; every round takes the semicolon.
valid_chunk_extensions_fuel : ℕ → Bytes → Bool
valid_chunk_extensions_fuel fuel [] = true
valid_chunk_extensions_fuel zero (c ∷ cs) = false
valid_chunk_extensions_fuel (suc fuel) (c ∷ cs) = elim (c == b';') [
  | false ↦ false
  | true ↦ elim (find b';' cs) [
    | none ↦ valid_chunk_extension (trim_ows cs)
    | some next ↦ elim (valid_chunk_extension (trim_ows (take next cs))) [
      | false ↦ false
      | true ↦ valid_chunk_extensions_fuel fuel (drop next cs)
    ]
  ]
]

unfoldable pub valid_chunk_extensions : Bytes → Bool
unfolding valid_chunk_extensions_fuel
valid_chunk_extensions value = valid_chunk_extensions_fuel (length value) value

-- The size that a chunk's line gives, or the refusal.
unfoldable pub chunk_line_size : Bytes → Option ℕ
chunk_line_size line = elim (find b';' line) [
  | none ↦ parse_hex_u64 line
  | some semicolon ↦
      if valid_chunk_extensions (drop semicolon line)
      then parse_hex_u64 (take semicolon line)
      else none
]

-- The test that a chunk fits what the limit leaves.
unfoldable pub begin_chunk : ℕ → HttpParser → Bool × HttpParser
begin_chunk size p =
    let sized : HttpParser = record p { current_chunk_size = size } in
    if size == 0
    then (true, record sized { state = trailers })
    else if ltb p.options.max_body p.decoded_body_bytes
        || ltb (p.options.max_body - p.decoded_body_bytes) size
    then set_error body_too_large sized
    else (true, record sized { state = chunk_data })

unfoldable pub parse_chunk_size : HttpParser → Buffer → Call
parse_chunk_size p b = elim (find_crlf b) [
  | none ↦ waits p b
  | some crlf ↦ elim (chunk_line_size (take crlf (contents b))) [
    | none ↦ called (set_error bad_message_framing p) b
    | some size ↦ called (begin_chunk size p) (retrieve_until (crlf + 2) b)
  ]
]

-- The sum `current_chunk_size_ + 2` is a `uint64_t`; it cannot exceed the largest `size_t`.
unfoldable pub parse_chunk_data : HttpParser → Buffer → Call
parse_chunk_data p b =
    let size = p.current_chunk_size in
    let unread = contents b in
    if ltb (readable_bytes b) ((size + 2) % 2 ^ 64)
    then waits p b
    else if not (get_or unread size 0 == b'\r') || not (get_or unread (size + 1) 0 == b'\n')
    then called (set_error bad_message_framing p) b
    else called
        (
          true,
          record (put_body (message_body p ++ take size unread) p) {
            decoded_body_bytes = (p.decoded_body_bytes + size) % 2 ^ 64;
            state = chunk_size;
          },
        )
        (retrieve (size + 2) b)

unfoldable pub forbidden_trailer_field : Bytes → Bool
forbidden_trailer_field field =
    let lower = lowercase field in
    equal lower (codes "content-length")
    || equal lower (codes "transfer-encoding")
    || equal lower (codes "host")

abbrev pub forbidden_line : Bytes → Bool
forbidden_line line = elim (find b':' line) [
  | none ↦ false
  | some colon ↦ forbidden_trailer_field (take colon line)
]

-- The loop over the trailer lines. Every round takes two bytes at least; `none` says that the fuel
-- ran out.
unfoldable pub parse_trailers_fuel : ℕ → HttpParser → Buffer → Option Call
parse_trailers_fuel zero p b = none
parse_trailers_fuel (suc fuel) p b = elim (find_crlf b) [
  | none ↦ some (waits p b)
  | some crlf ↦
      let line = take crlf (contents b) in
      let r = parse_trailer_line line p in
      elim (crlf == 0) [
        | true ↦ some (called (finish_message p) (retrieve_until (crlf + 2) b))
        | false ↦ elim (forbidden_line line) [
          | true ↦ some (called (set_error bad_header p) b)
          | false ↦ elim r.0 [
            | false ↦ some (called r b)
            | true ↦ parse_trailers_fuel fuel r.1 (retrieve_until (crlf + 2) b)
          ]
        ]
      ]
]

unfoldable pub parse_trailers : HttpParser → Buffer → Option Call
parse_trailers p b = parse_trailers_fuel (suc (readable_bytes b)) p b
