-- ===== src/Http/Multipart/Values.antt =====
-- The helpers of src/http/multipart_parser.cpp: the values of header fields, and the headers of a
-- part. Those of src/http/streaming_multipart_parser.cpp are the same text.
use oklib.Common.{
  ltb, ◌==◌, if◌then◌else◌, length, take, drop, Bytes, codes, ℕ, zero, suc, ◌+◌, ◌-◌, Bool, true,
  false, not, ◌&&◌, ◌||◌, Option, none, some, List, [], ◌∷◌,
}
use oklib.Http.Text.{is_ows, lowercase, equal, is_empty, find, trim_ows}
use oklib.Http.Url.{escaped, url_decode, decode_rfc5987_value, percent}
use oklib.Http.Headers.{HttpHeaders, add}
use oklib.Http.Parser.Body.{last_is, first_is}

unfoldable pub starts_with : Bytes → Bytes → Bool
starts_with value [] = true
starts_with [] (p ∷ ps) = false
starts_with (v ∷ vs) (p ∷ ps) = v == p && starts_with vs ps

-- `find` for a text; `none` is `npos`.
unfoldable pub find_text : Bytes → Bytes → Option ℕ
find_text text [] = if is_empty text then some 0 else none
find_text text (x ∷ xs) =
    let later = find_text text xs in
    if starts_with (x ∷ xs) text then some 0 else elim later [ none ↦ none | some i ↦ some (suc i) ]

-- The inside of a quoted string; a backslash at its end stands for itself.
unfoldable pub unquote_inside : Bytes → Bytes
unquote_inside [] = []
unquote_inside (c ∷ []) = c ∷ []
unquote_inside (c ∷ d ∷ rest) =
    let escaped = unquote_inside rest in
    let plain = unquote_inside (d ∷ rest) in if c == b'\\' then d ∷ escaped else c ∷ plain

unfoldable pub unquote : Bytes → Bytes
unquote text =
    let value = trim_ows text in
    if ltb (length value) 2 || not (first_is b'"' value) || not (last_is b'"' value)
    then value
    else unquote_inside (take (length value - 2) (drop 1 value))

-- A character in front of the first part.
abbrev pub in_front : ℕ → List Bytes → List Bytes
in_front c [] = (c ∷ []) ∷ []
in_front c (part ∷ parts) = (c ∷ part) ∷ parts

-- The loop over the characters; the first part is the one that has begun.
unfoldable pub split_parameters : Bool → Bool → Bytes → List Bytes
split_parameters quoted escaped [] = [] ∷ []
split_parameters quoted escaped (c ∷ cs) =
    let plain = split_parameters quoted false cs in
    let escapes = split_parameters quoted true cs in
    let turned = split_parameters (not quoted) false cs in
    if escaped
    then in_front c plain
    else if quoted && c == b'\\'
    then in_front c escapes
    else if c == b'"'
    then in_front c turned
    else if not quoted && c == b';'
    then [] ∷ plain
    else in_front c plain

pub record ParsedHeaderValue : Type 0 where
  pub token : Bytes
  pub params : List (Bytes × Bytes)

-- The loop over the parts behind the first.
unfoldable pub parameters : List Bytes → List (Bytes × Bytes)
parameters [] = []
parameters (part ∷ parts) =
    let rest = parameters parts in
    elim (find b'=' part) [
      | none ↦ rest
      | some equal ↦
          let key = lowercase (trim_ows (take equal part)) in
          if is_empty key then rest else (key, unquote (drop (equal + 1) part)) ∷ rest
    ]

unfoldable pub parsed_parts : List Bytes → ParsedHeaderValue
parsed_parts [] = record { token = []; params = [] }
parsed_parts (part ∷ parts) = record {
  token = lowercase (trim_ows part);
  params = parameters parts;
}

unfoldable pub parse_header_value : Bytes → ParsedHeaderValue
parse_header_value value = parsed_parts (split_parameters false false value)

abbrev pub find_parameter : Bytes → List (Bytes × Bytes) → Bytes
find_parameter key [] = []
find_parameter key ((field, value) ∷ rest) =
    if equal field key then value else find_parameter key rest

unfoldable pub parameter_value : ParsedHeaderValue → Bytes → Bytes
parameter_value parsed key = find_parameter key parsed.params

unfoldable pub decoded_parameter_value : ParsedHeaderValue → Bytes → Bytes
decoded_parameter_value parsed key = url_decode percent (parameter_value parsed key)

unfoldable pub decoded_filename_value : ParsedHeaderValue → Bytes
decoded_filename_value parsed =
    let filename = decoded_parameter_value parsed (codes "filename") in
    let filename_star = parameter_value parsed (codes "filename*") in
    if is_empty filename_star
    then filename
    else elim (decode_rfc5987_value filename_star) [ none ↦ filename | some decoded ↦ decoded ]

-- One line of the headers of a part.
unfoldable pub add_part_line : Bytes → HttpHeaders → Option HttpHeaders
add_part_line [] hs = some hs
add_part_line (c ∷ cs) hs = if is_ows c then none else elim (find b':' (c ∷ cs)) [
  | none ↦ none
  | some colon ↦
      if colon == 0 then none else some (add (take colon (c ∷ cs)) (drop (colon + 1) (c ∷ cs)) hs)
]

abbrev pub crlf : Bytes
crlf = codes "\r\n"

-- The loop over the lines. Every round takes a character at least, so that the length of the block
-- is fuel enough.
unfoldable pub part_lines : ℕ → Bytes → HttpHeaders → Option HttpHeaders
part_lines fuel [] hs = some hs
part_lines zero (c ∷ cs) hs = none
part_lines (suc fuel) (c ∷ cs) hs = elim (find_text crlf (c ∷ cs)) [
  | none ↦ add_part_line (c ∷ cs) hs
  | some line_end ↦ elim (add_part_line (take line_end (c ∷ cs)) hs) [
    | none ↦ none
    | some more ↦ part_lines fuel (drop (line_end + 2) (c ∷ cs)) more
  ]
]

unfoldable pub parse_part_headers : Bytes → Option HttpHeaders
parse_part_headers block = part_lines (length block) block []
