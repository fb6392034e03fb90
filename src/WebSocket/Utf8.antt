-- ===== src/WebSocket/Utf8.antt =====
-- `valid_utf8` of src/websocket/websocket_frame.cpp.
pub mod Bytewise
pub mod Sound
use oklib.Common.{
  ltb, leb, ◌==◌, if◌then◌else◌, Bytes, ℕ, ◌+◌, ◌-◌, ◌*◌, ◌/◌, ◌%◌, ◌^◌, ◌≤◌, ◌<◌, bit_and, bit_or,
  ◌⊎◌, Bool, false, not, ◌&&◌, ◌||◌, Option, none, some, List, [], ◌∷◌, ◌++◌,
}

-- The three locals of the loop.
pub record Scan : Type 0 where
  pub codepoint : ℕ
  pub remaining : ℕ
  pub min_value : ℕ

abbrev pub between : ℕ → ℕ → ℕ → Bool
between lo hi c = leb lo c && leb c hi

-- `(codepoint << 6) | (byte & 0x3F)`, on a `uint32_t`.
unfoldable pub push_bits : ℕ → ℕ → ℕ
push_bits codepoint byte = bit_or (codepoint * 2 ^ 6 % 2 ^ 32) (bit_and byte 0x3F)

-- A byte where a code point may begin.
unfoldable pub lead : Scan → ℕ → Option Scan
lead s byte =
    if leb byte 0x7F
    then some s
    else if between 0xC2 0xDF byte
    then some (record { codepoint = bit_and byte 0x1F; remaining = 1; min_value = 0x80 })
    else if between 0xE0 0xEF byte
    then some (record { codepoint = bit_and byte 0x0F; remaining = 2; min_value = 0x800 })
    else if between 0xF0 0xF4 byte
    then some (record { codepoint = bit_and byte 0x07; remaining = 3; min_value = 0x10000 })
    else none

-- The test of a code point whose last byte has been read.
abbrev pub rejected : ℕ → ℕ → Bool
rejected min_value cp = ltb cp min_value || ltb 0x10FFFF cp || between 0xD800 0xDFFF cp

-- A byte inside a code point of which `remaining` bytes are missing, this one included.
unfoldable pub continue_with : Scan → ℕ → Option Scan
continue_with s byte =
    let cp = push_bits s.codepoint byte in
    let left = s.remaining - 1 in
    if not (bit_and byte 0xC0 == 0x80)
    then none
    else if left == 0 && rejected s.min_value cp
    then none
    else some (record s { codepoint = cp; remaining = left })

unfoldable pub scan_byte : Scan → ℕ → Option Scan
scan_byte s byte = if s.remaining == 0 then lead s byte else continue_with s byte

unfoldable pub scan : Scan → Bytes → Bool
scan s [] = s.remaining == 0
scan s (byte ∷ rest) = elim (scan_byte s byte) [ none ↦ false | some s' ↦ scan s' rest ]

abbrev pub scan_start : Scan
scan_start = record { codepoint = 0; remaining = 0; min_value = 0 }

unfoldable pub valid_utf8 : Bytes → Bool
valid_utf8 value = scan scan_start value

-- The standard's own description: a code point that is no surrogate, in its shortest form.
abbrev pub IsScalar : ℕ → Type 0
IsScalar cp = (cp < 0xD800) ⊎ ((0xE000 ≤ cp) × (cp < 0x110000))

unfoldable pub encode_scalar : ℕ → Bytes
encode_scalar cp =
    if ltb cp 0x80
    then cp ∷ []
    else if ltb cp 0x800
    then (0xC0 + cp / 64) ∷ (0x80 + cp % 64) ∷ []
    else if ltb cp 0x10000
    then (0xE0 + cp / 4096) ∷ (0x80 + cp / 64 % 64) ∷ (0x80 + cp % 64) ∷ []
    else (0xF0 + cp / 262144)
      ∷ (0x80 + cp / 4096 % 64)
      ∷ (0x80 + cp / 64 % 64)
      ∷ (0x80 + cp % 64)
      ∷ []

unfoldable pub utf8 : List ℕ → Bytes
utf8 [] = []
utf8 (cp ∷ cps) = encode_scalar cp ++ utf8 cps
