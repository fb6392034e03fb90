-- ===== src/Http/Numbers.antt =====
-- `std::from_chars` as the parser uses it, and `parse_decimal_u64`, `parse_hex_u64` of
-- src/http/http_parser.cpp.
pub mod Print
pub mod Decimal
use oklib.Common.{
  ltb, leb, ◌==◌, if◌then◌else◌, Bytes, ℕ, zero, suc, ◌+◌, ◌-◌, ◌*◌, ◌/◌, ◌%◌, ◌^◌, true, false,
  not, ◌||◌, Option, none, some, [], ◌∷◌,
}
use oklib.Http.Text.{within, is_empty, trim_ows}

-- The value of a digit in base 16; base 10 takes those below 10.
unfoldable pub digit_value : ℕ → Option ℕ
digit_value c =
    if within b'0' b'9' c
    then some (c - b'0')
    else if within b'a' b'f' c
    then some (c - b'a' + 10)
    else if within b'A' b'F' c
    then some (c - b'A' + 10)
    else none

-- The number that the longest prefix of digits spells, how many there are, and what stands behind.
pub record Digits : Type 0 where
  pub value : ℕ
  pub count : ℕ
  pub rest : Bytes

unfoldable pub read_digits : ℕ → ℕ → ℕ → Bytes → Digits
read_digits base value count [] = record { value = value; count = count; rest = [] }
read_digits base value count (c ∷ cs) = elim (digit_value c) [
  | none ↦ record { value = value; count = count; rest = c ∷ cs }
  | some d ↦ elim (ltb d base) [
    | true ↦ read_digits base (value * base + d) (count + 1) cs
    | false ↦ record { value = value; count = count; rest = c ∷ cs }
  ]
]

-- `from_chars` that reads a `uint64_t` up to the end: no digit, a value out of range and a
-- character behind the digits all fail the test on `ec` and `ptr`.
unfoldable pub from_chars_u64 : ℕ → Bytes → Option ℕ
from_chars_u64 base value =
    let d = read_digits base 0 0 value in
    if d.count == 0 || leb (2 ^ 64) d.value || not (is_empty d.rest) then none else some d.value

-- The result stands for the Boolean and `*output`.
unfoldable pub parse_decimal_u64 : Bytes → Option ℕ
parse_decimal_u64 value =
    let trimmed = trim_ows value in if is_empty trimmed then none else from_chars_u64 10 trimmed

unfoldable pub parse_hex_u64 : Bytes → Option ℕ
parse_hex_u64 value =
    let trimmed = trim_ows value in if is_empty trimmed then none else from_chars_u64 16 trimmed

-- Sign and size of an `int`; `negative n` is -n.
pub data Int32 : Type 0 where
  nonneg : ℕ → Int32
  negative : ℕ → Int32

-- `from_chars` that reads an `int` up to the end: it takes a leading minus sign.
unfoldable pub from_chars_int : Bytes → Option Int32
from_chars_int [] = none
from_chars_int (c ∷ cs) =
    if c == b'-'
    then (let d = read_digits 10 0 0 cs in
        if d.count == 0 || ltb (2 ^ 31) d.value || not (is_empty d.rest)
        then none
        else some (negative d.value))
    else (let d = read_digits 10 0 0 (c ∷ cs) in
        if d.count == 0 || leb (2 ^ 31) d.value || not (is_empty d.rest)
        then none
        else some (nonneg d.value))

-- A digit as it is written in a base up to 16, in lower case.
unfoldable pub digit_char : ℕ → ℕ
digit_char d = if ltb d 10 then b'0' + d else b'a' + (d - 10)

-- A number as it is written, its least significant digit last. `rounds` bounds the digits.
unfoldable pub print_digits : ℕ → ℕ → ℕ → Bytes → Bytes
print_digits zero base n tail = tail
print_digits (suc rounds) base n tail = elim (ltb n base) [
  | true ↦ digit_char n ∷ tail
  | false ↦ print_digits rounds base (n / base) (digit_char (n % base) ∷ tail)
]

-- `std::to_chars`. A `uint64_t` has 64 digits at most.
unfoldable pub to_chars : ℕ → ℕ → Bytes
to_chars base n = print_digits 65 base n []
