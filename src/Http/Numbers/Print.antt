-- ===== src/Http/Numbers/Print.antt =====
-- `std::to_chars`, and that the parser reads back what it writes.
use native.Mathlib.Nat.{pow-suc}
use oklib.Common.{
  ltb, if◌then◌else◌, ltb→lt, lt→ltb, le→ltb, Bool-cases, length, All, Bytes, ℕ, zero, suc, ◌+◌,
  ◌*◌, ◌/◌, ◌%◌, ◌^◌, ◌≤◌, ◌<◌, ◌≡◌, refl, ap, ap₂, ◌∙◌, ◌≢◌, inl, inr, false, none, some, [], ◌∷◌,
  arith,
}
use oklib.Http.Text.Trim.{trim_ows_plain}
use oklib.Http.Text.{is_ows, is_empty, trim_ows}
use oklib.Http.Numbers.{
  digit_value, read_digits, from_chars_u64, parse_decimal_u64, parse_hex_u64, from_chars_int,
  digit_char, print_digits, to_chars, nonneg,
}

digit_value-digit_char : (d : ℕ) → d < 16 → digit_value (digit_char d) ≡ some d
unfolding digit_value digit_char
digit_value-digit_char d h = ground arith

digit_not_ows : (d : ℕ) → d < 16 → is_ows (digit_char d) ≡ false
unfolding is_ows digit_char
digit_not_ows d h = ground arith

-- Digits in front of others are read to their number.
module _ (base : ℕ) (low : base ≤ 16) (high : 2 ≤ base)
    (halves : (n r : ℕ) → n < 2 ^ suc r → n / base < 2 ^ r)
    (split : (n : ℕ) → n / base * base + n % base ≡ n) (small : (n : ℕ) → n % base < base) where
  read_digit :
      (v k d : ℕ) (tail : Bytes)
      → d < base
      → read_digits base v k (digit_char d ∷ tail) ≡ read_digits base (v * base + d) (k + 1) tail
  unfolding read_digits
  read_digit v k d tail h = ground (arith, digit_value-digit_char d (omega arith), lt→ltb d base h)

  read_one :
      (k n : ℕ) (tail : Bytes)
      → n < base
      → read_digits base 0 k (digit_char n ∷ tail) ≡ read_digits base n (k + 1) tail
  read_one k n tail h =
      read_digit 0 k n tail h ∙ ap (λ v. read_digits base v (k + 1) tail) (omega arith)

  -- The number's digits count one at least.
  pub read_digits-print_digits :
      (r n k : ℕ) (tail : Bytes)
      → n < 2 ^ r
      → (c : ℕ) × (1 ≤ c)
        × (read_digits base 0 k (print_digits (suc r) base n tail)
            ≡ read_digits base n (k + c) tail)
  unfolding print_digits
  read_digits-print_digits zero n k tail h = (
    1,
    omega arith,
    rw (lt→ltb n base (omega arith), print_digits) (read_one k n tail (omega arith)),
  )
  read_digits-print_digits (suc r) n k tail h = elim (Bool-cases (ltb n base)) [
    | inl e ↦ (1, omega arith, rw (e, print_digits) (read_one k n tail (ltb→lt n base e)))
    | inr e ↦
        let (c, least, eq) =
          read_digits-print_digits r (n / base) k (digit_char (n % base) ∷ tail) (halves n r h) in
        (
          c + 1,
          omega arith,
          rw (e, print_digits)
              (eq
                ∙ read_digit (n / base) (k + c) (n % base) tail (small n)
                ∙ ap₂ (λ v j. read_digits base v j tail) (split n) (omega arith)),
        )
  ]

  -- What every digit satisfies, what is written satisfies in all its characters.
  pub All-print_digits :
      (P : ℕ → Type 0)
      → ((d : ℕ) → d < 16 → P (digit_char d))
      → (r n : ℕ) (tail : Bytes) → All P tail
      → All P (print_digits r base n tail)
  unfolding print_digits
  All-print_digits P digit zero n tail h = h
  All-print_digits P digit (suc r) n tail h = elim (Bool-cases (ltb n base)) [
    | inl e ↦ rw (e, print_digits) (digit n (omega (arith, ltb→lt n base e)), h)
    | inr e ↦
        rw (e, print_digits)
          (All-print_digits P digit r (n / base) (digit_char (n % base) ∷ tail)
            (digit (n % base) (omega (arith, small n)), h))
  ]

-- A text that is read to its end as a number.
from_chars_read :
    (base n c : ℕ) (s : Bytes)
    → 1 ≤ c
    → n < 2 ^ 64
    → read_digits base 0 0 s ≡ read_digits base n c []
    → (is_empty s ≡ false) × (from_chars_u64 base s ≡ some n)
unfolding read_digits from_chars_u64 is_empty
from_chars_read base n c [] least fits e = absurd (ground arith)
from_chars_read base n c (x ∷ xs) least fits e = (refl, ground (arith, e))

-- No digit is blank, so that nothing is trimmed.
read_back :
    (base n c : ℕ) (s : Bytes)
    → All (λ ch. is_ows ch ≡ false) s
    → 1 ≤ c
    → n < 2 ^ 64
    → read_digits base 0 0 s ≡ read_digits base n c []
    → (if is_empty (trim_ows s) then none else from_chars_u64 base (trim_ows s)) ≡ some n
read_back base n c s plain least fits e =
    let (filled, read) = from_chars_read base n c s least fits e in
    rw (trim_ows_plain s plain, filled) read

-- What every digit satisfies, the characters of a number satisfy.
pub All-hex :
    (P : ℕ → Type 0) → ((d : ℕ) → d < 16 → P (digit_char d)) → (n : ℕ) → All P (to_chars 16 n)
unfolding to_chars
All-hex P digit n =
    All-print_digits 16 (omega arith) (omega arith) (λ m r p. omega (arith, pow-suc 2 r))
      (λ m. omega arith) (λ m. omega arith) P digit 65 n [] tt

pub All-decimal :
    (P : ℕ → Type 0) → ((d : ℕ) → d < 16 → P (digit_char d)) → (n : ℕ) → All P (to_chars 10 n)
unfolding to_chars
All-decimal P digit n =
    All-print_digits 10 (omega arith) (omega arith) (λ m r p. omega (arith, pow-suc 2 r))
      (λ m. omega arith) (λ m. omega arith) P digit 65 n [] tt

-- A number of 64 bits is read back from what `to_chars` writes, in hexadecimal and in decimal.
pub parse_hex_u64-to_chars :
    (n : ℕ)
    → n < 2 ^ 64
    → (parse_hex_u64 (to_chars 16 n) ≡ some n) × (parse_decimal_u64 (to_chars 10 n) ≡ some n)
unfolding parse_hex_u64 parse_decimal_u64 to_chars
parse_hex_u64-to_chars n h =
    let (c, least, e) =
      read_digits-print_digits 16 (omega arith) (omega arith) (λ m r p. omega (arith, pow-suc 2 r))
        (λ m. omega arith) (λ m. omega arith) 64 n 0 [] h in
    let (c', least', e') =
      read_digits-print_digits 10 (omega arith) (omega arith) (λ m r p. omega (arith, pow-suc 2 r))
        (λ m. omega arith) (λ m. omega arith) 64 n 0 [] h in
    (
      read_back 16 n (0 + c) (to_chars 16 n) (All-hex _ digit_not_ows n) (omega arith) h e,
      read_back 10 n (0 + c') (to_chars 10 n) (All-decimal _ digit_not_ows n) (omega arith) h e',
    )

-- A number of three digits.
to_chars_three :
    (n : ℕ)
    → 100 ≤ n
    → n < 1000
    → to_chars 10 n ≡ digit_char (n / 10 / 10) ∷ digit_char (n / 10 % 10) ∷ digit_char (n % 10) ∷ []
unfolding to_chars print_digits
to_chars_three n low high =
    rw
      (
        le→ltb n 10 (omega arith),
        le→ltb (n / 10) 10 (omega arith),
        lt→ltb (n / 10 / 10) 10 (omega arith),
        print_digits,
      )
      refl

digit_not_minus : (d : ℕ) → d < 16 → digit_char d ≢ b'-'
unfolding digit_char
digit_not_minus d h = ground arith

int_of_digits :
    (n c : ℕ) (s : Bytes)
    → All (λ ch. ch ≢ b'-') s
    → 1 ≤ c
    → n < 2 ^ 31
    → read_digits 10 0 0 s ≡ read_digits 10 n c []
    → from_chars_int s ≡ some (nonneg n)
unfolding from_chars_int read_digits is_empty
int_of_digits n c [] sign least fits e = absurd (ground arith)
int_of_digits n c (x ∷ xs) sign least fits e = ground (arith, e, sign.0)

-- A status of three digits is read back.
pub from_chars_int-to_chars :
    (n : ℕ)
    → 100 ≤ n
    → n < 1000
    → (length (to_chars 10 n) ≡ 3) × (from_chars_int (to_chars 10 n) ≡ some (nonneg n))
unfolding to_chars
from_chars_int-to_chars n low high =
    let (c, least, e) =
      read_digits-print_digits 10 (omega arith) (omega arith) (λ m r p. omega (arith, pow-suc 2 r))
        (λ m. omega arith) (λ m. omega arith) 64 n 0 [] (omega arith) in
    (
      ap length (to_chars_three n low high),
      int_of_digits n (0 + c) (to_chars 10 n) (All-decimal _ digit_not_minus n) (omega arith)
          (omega arith) e,
    )
