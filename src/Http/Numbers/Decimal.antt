-- ===== src/Http/Numbers/Decimal.antt =====
-- `parse_decimal_u64` reads the decimal numbers of 64 bits, and nothing else.
use oklib.Common.{
  ltb, leb, ◌==◌, if◌then◌else◌, Bool-cases, length, All, Bytes, ℕ, ◌+◌, ◌-◌, ◌*◌, ◌^◌, ◌≤◌, ◌<◌,
  ◌≡◌, refl, sym, ap, ◌∙◌, ◌↔◌, ◌⊎◌, inl, inr, true, false, ◌&&◌, ◌||◌, none, some, [], ◌∷◌, arith,
}
use oklib.Http.Text.{within, is_empty, trim_ows}
use oklib.Http.Text.Split.{is_empty-length}
use oklib.Http.Numbers.{digit_value, read_digits, from_chars_u64, parse_decimal_u64, Digits}

abbrev pub IsDigit : ℕ → Type 0
IsDigit c = (b'0' ≤ c) × (c ≤ b'9')

-- The value of decimal digits behind a number.
abbrev pub decimal : ℕ → Bytes → ℕ
decimal v [] = v
decimal v (c ∷ cs) = decimal (v * 10 + (c - b'0')) cs

-- Decimal digits, one at least, of a number of 64 bits.
pub record IsDecimal (text : Bytes) (n : ℕ) : Type 0 where
  pub filled : is_empty text ≡ false
  pub digits : All IsDigit text
  pub value : decimal 0 text ≡ n
  pub small : n < 2 ^ 64

digit_read : (c : ℕ) → IsDigit c → (digit_value c ≡ some (c - b'0')) × (ltb (c - b'0') 10 ≡ true)
unfolding digit_value
digit_read c h = ground (arith, h.0, h.1)

read_digits_all :
    (v k : ℕ) (cs : Bytes)
    → All IsDigit cs
    → read_digits 10 v k cs ≡ record { value = decimal v cs; count = k + length cs; rest = [] }
unfolding read_digits
read_digits_all v k [] h = ap (λ n. record { value = v; count = n; rest = [] }) (omega arith)
read_digits_all v k (c ∷ cs) h =
    let d = digit_read c h.0 in
    rw (d.0, read_digits, d.1)
      (read_digits_all (v * 10 + (c - b'0')) (k + 1) cs h.1
        ∙ ap (λ n. record { value = decimal (v * 10 + (c - b'0')) cs; count = n; rest = [] })
            (omega arith))

-- A character that is no decimal digit has no value, or one that is too large.
not_read :
    (c : ℕ)
    → (leb b'0' c && leb c b'9') ≡ false
    → (digit_value c ≡ none) ⊎ ((d : ℕ) × (digit_value c ≡ some d) × (ltb d 10 ≡ false))
unfolding digit_value
not_read c h = elim (Bool-cases (within b'a' b'f' c)) [
  | inl e ↦ inr (c - b'a' + 10, ground arith, ground arith)
  | inr e ↦ elim (Bool-cases (within b'A' b'F' c)) [
    | inl k ↦ inr (c - b'A' + 10, ground arith, ground arith)
    | inr k ↦ inl (ground arith)
  ]
]

stops_at :
    (v k c : ℕ) (cs : Bytes)
    → (digit_value c ≡ none) ⊎ ((d : ℕ) × (digit_value c ≡ some d) × (ltb d 10 ≡ false))
    → is_empty (read_digits 10 v k (c ∷ cs)).rest ≡ false
unfolding read_digits is_empty
stops_at v k c cs (inl e) = rw (e, read_digits) refl
stops_at v k c cs (inr (d, e, l)) = rw (e, read_digits, l) refl

read_on :
    (v k c : ℕ) (cs : Bytes)
    → IsDigit c
    → read_digits 10 v k (c ∷ cs) ≡ read_digits 10 (v * 10 + (c - b'0')) (k + 1) cs
unfolding read_digits
read_on v k c cs h = rw ((digit_read c h).0, read_digits, (digit_read c h).1) refl

read_digits_only :
    (v k : ℕ) (cs : Bytes) → is_empty (read_digits 10 v k cs).rest ≡ true → All IsDigit cs
read_digits_only v k [] h = tt
read_digits_only v k (c ∷ cs) h = elim (Bool-cases (leb b'0' c && leb c b'9')) [
  | inl e ↦
      let digit : IsDigit c = (ground arith, ground arith) in
      (
        digit,
        read_digits_only (v * 10 + (c - b'0')) (k + 1) cs
            (sym (ap (λ (r : Digits). is_empty r.rest) (read_on v k c cs digit)) ∙ h),
      )
  | inr e ↦ absurd (ground (arith, h, stops_at v k c cs (not_read c e)))
]

from_chars_only : (s : Bytes) (n : ℕ) → from_chars_u64 10 s ≡ some n → All IsDigit s
unfolding from_chars_u64
from_chars_only s n h = elim (Bool-cases (is_empty (read_digits 10 0 0 s).rest)) [
  | inl e ↦ read_digits_only 0 0 s e
  | inr e ↦ absurd (ground (arith, e, h))
]

-- What is read from digits.
from_chars_digits :
    (s : Bytes)
    → All IsDigit s
    → from_chars_u64 10 s
      ≡ (if length s == 0 || leb (2 ^ 64) (decimal 0 s) then none else some (decimal 0 s))
unfolding from_chars_u64 is_empty
from_chars_digits s h = rw (read_digits_all 0 0 s h) (ground arith)

from_chars_iff :
    (s : Bytes) (n : ℕ) → is_empty s ≡ false → (from_chars_u64 10 s ≡ some n) ↔ IsDecimal s n
from_chars_iff s n h = (
  λ e.
      let digits = from_chars_only s n e in
      let read = sym (from_chars_digits s digits) ∙ e in
      record { filled = h; digits = digits; value = ground arith; small = ground arith },
  λ d. from_chars_digits s d.digits ∙ ground (arith, is_empty-length s h, d.value, d.small),
)

-- A text is read as a number exactly if, without the blanks round it, it is decimal digits, one at
-- least, of that number, which has 64 bits.
pub parse_decimal_u64_iff :
    (text : Bytes) (n : ℕ) → (parse_decimal_u64 text ≡ some n) ↔ IsDecimal (trim_ows text) n
unfolding parse_decimal_u64
parse_decimal_u64_iff text n = elim (Bool-cases (is_empty (trim_ows text))) [
  | inl e ↦ (λ h. absurd (ground (arith, e, h)), λ d. absurd (ground (arith, e, d.filled)))
  | inr e ↦ rw e (from_chars_iff (trim_ows text) n e)
]
