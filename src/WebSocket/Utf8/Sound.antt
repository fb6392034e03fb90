-- ===== src/WebSocket/Utf8/Sound.antt =====
-- `valid_utf8` accepts exactly the encodings of code points.
use oklib.Common.{
  length, All, Bytes, IsByte, ℕ, zero, suc, ◌+◌, ◌*◌, ◌%◌, ◌^◌, ◌≤◌, ◌<◌, ◌≡◌, refl, sym, ap, ◌∙◌,
  ◌↔◌, ◌⊎◌, inl, inr, true, false, List, [], ◌∷◌, ◌++◌, arith,
}
use oklib.Common.Bits.{bit_and_0xc0}
use oklib.WebSocket.Utf8.{
  lead, rejected, continue_with, scan_byte, scan, scan_start, valid_utf8, IsScalar, encode_scalar,
  utf8,
}
use oklib.WebSocket.Utf8.Bytewise.{
  inside, push_bits_lem, scan_stale, scan_one, lead_two, lead_three, lead_four, valid_utf8_complete,
}

-- Inversion: what a scan that succeeds has met.
middle_inv :
    (cp left low byte : ℕ) (rest : Bytes)
    → byte < 256
    → cp < 2 ^ 20
    → scan (inside cp (suc (suc left)) low) (byte ∷ rest) ≡ true
    → (128 ≤ byte) × (byte < 192) × (scan (inside (cp * 64 + byte % 64) (suc left) low) rest ≡ true)
unfolding scan scan_byte continue_with
middle_inv cp left low byte rest b l e = ground (arith, push_bits_lem cp byte l, bit_and_0xc0 byte)

last_inv :
    (cp low byte : ℕ) (rest : Bytes)
    → byte < 256
    → cp < 2 ^ 20
    → scan (inside cp 1 low) (byte ∷ rest) ≡ true
    → (128 ≤ byte)
      × (byte < 192)
      × (rejected low (cp * 64 + byte % 64) ≡ false)
      × (scan scan_start rest ≡ true)
unfolding scan scan_byte continue_with
last_inv cp low byte rest b l e =
    ground
      (arith, push_bits_lem cp byte l, bit_and_0xc0 byte, scan_stale (cp * 64 + byte % 64) low rest)

-- The text begins with the encoding of a code point, and goes on well.
abbrev Begins : Bytes → Type 0
Begins s =
    (cp : ℕ) × (rest : Bytes) × IsScalar cp
    × (s ≡ encode_scalar cp ++ rest)
    × (scan scan_start rest ≡ true)
    × (length rest < length s)
    × All IsByte rest

encode_two :
    (b0 b1 : ℕ)
    → 0xC2 ≤ b0
    → b0 ≤ 0xDF
    → 128 ≤ b1
    → b1 < 192
    → encode_scalar (b0 % 32 * 64 + b1 % 64) ≡ b0 ∷ b1 ∷ []
unfolding encode_scalar
encode_two b0 b1 h k l m = ground arith

encode_three :
    (b0 b1 b2 : ℕ)
    → 0xE0 ≤ b0
    → b0 ≤ 0xEF
    → 128 ≤ b1
    → b1 < 192
    → 128 ≤ b2
    → b2 < 192
    → 0x800 ≤ (b0 % 16 * 64 + b1 % 64) * 64 + b2 % 64
    → encode_scalar ((b0 % 16 * 64 + b1 % 64) * 64 + b2 % 64) ≡ b0 ∷ b1 ∷ b2 ∷ []
unfolding encode_scalar
encode_three b0 b1 b2 h k l m n o p = ground arith

encode_four :
    (b0 b1 b2 b3 : ℕ)
    → 0xF0 ≤ b0
    → b0 ≤ 0xF4
    → 128 ≤ b1
    → b1 < 192
    → 128 ≤ b2
    → b2 < 192
    → 128 ≤ b3
    → b3 < 192
    → 0x10000 ≤ ((b0 % 8 * 64 + b1 % 64) * 64 + b2 % 64) * 64 + b3 % 64
    → encode_scalar (((b0 % 8 * 64 + b1 % 64) * 64 + b2 % 64) * 64 + b3 % 64)
      ≡ b0 ∷ b1 ∷ b2 ∷ b3 ∷ []
unfolding encode_scalar
encode_four b0 b1 b2 b3 h k l m n o p q r = ground arith

cut_short : (cp left low : ℕ) → scan (inside cp (suc left) low) [] ≡ false
unfolding scan
cut_short cp left low = ground arith

Begins-two :
    (b0 : ℕ) (s : Bytes)
    → 0xC2 ≤ b0
    → b0 ≤ 0xDF
    → All IsByte s
    → scan (inside (b0 % 32) 1 0x80) s ≡ true
    → Begins (b0 ∷ s)
Begins-two b0 [] h k bytes e = cc (cut_short (b0 % 32) 0 0x80)
Begins-two b0 (b1 ∷ rest) h k bytes e =
    let (lo, hi, ok, next) = last_inv (b0 % 32) 0x80 b1 rest bytes.0 (omega arith) e in
    (
      b0 % 32 * 64 + b1 % 64,
      rest,
      ground arith,
      rw (encode_two b0 b1 h k lo hi),
      next,
      omega arith,
      bytes.1,
    )

Begins-three :
    (b0 : ℕ) (s : Bytes)
    → 0xE0 ≤ b0
    → b0 ≤ 0xEF
    → All IsByte s
    → scan (inside (b0 % 16) 2 0x800) s ≡ true
    → Begins (b0 ∷ s)
Begins-three b0 [] h k bytes e = cc (cut_short (b0 % 16) 1 0x800)
Begins-three b0 (b1 ∷ []) h k bytes e =
    let (lo, hi, next) = middle_inv (b0 % 16) 0 0x800 b1 [] bytes.0 (omega arith) e in
    cc (cut_short (b0 % 16 * 64 + b1 % 64) 0 0x800)
Begins-three b0 (b1 ∷ b2 ∷ rest) h k bytes e =
    let (lo, hi, next) = middle_inv (b0 % 16) 0 0x800 b1 (b2 ∷ rest) bytes.0 (omega arith) e in
    let (lo', hi', ok, last) =
      last_inv (b0 % 16 * 64 + b1 % 64) 0x800 b2 rest bytes.1.0 (omega arith) next in
    (
      (b0 % 16 * 64 + b1 % 64) * 64 + b2 % 64,
      rest,
      ground arith,
      rw (encode_three b0 b1 b2 h k lo hi lo' hi' (ground arith)),
      last,
      omega arith,
      bytes.1.1,
    )

Begins-four :
    (b0 : ℕ) (s : Bytes)
    → 0xF0 ≤ b0
    → b0 ≤ 0xF4
    → All IsByte s
    → scan (inside (b0 % 8) 3 0x10000) s ≡ true
    → Begins (b0 ∷ s)
Begins-four b0 [] h k bytes e = cc (cut_short (b0 % 8) 2 0x10000)
Begins-four b0 (b1 ∷ []) h k bytes e =
    let (lo, hi, next) = middle_inv (b0 % 8) 1 0x10000 b1 [] bytes.0 (omega arith) e in
    cc (cut_short (b0 % 8 * 64 + b1 % 64) 1 0x10000)
Begins-four b0 (b1 ∷ b2 ∷ []) h k bytes e =
    let (lo, hi, next) = middle_inv (b0 % 8) 1 0x10000 b1 (b2 ∷ []) bytes.0 (omega arith) e in
    let (lo', hi', next') =
      middle_inv (b0 % 8 * 64 + b1 % 64) 0 0x10000 b2 [] bytes.1.0 (omega arith) next in
    cc (cut_short ((b0 % 8 * 64 + b1 % 64) * 64 + b2 % 64) 0 0x10000)
Begins-four b0 (b1 ∷ b2 ∷ b3 ∷ rest) h k bytes e =
    let (lo, hi, next) =
      middle_inv (b0 % 8) 1 0x10000 b1 (b2 ∷ b3 ∷ rest) bytes.0 (omega arith) e in
    let (lo', hi', next') =
      middle_inv (b0 % 8 * 64 + b1 % 64) 0 0x10000 b2 (b3 ∷ rest) bytes.1.0 (omega arith) next in
    let (lo2, hi2, ok, last) =
      last_inv ((b0 % 8 * 64 + b1 % 64) * 64 + b2 % 64) 0x10000 b3 rest bytes.1.1.0 (omega arith)
        next' in
    (
      ((b0 % 8 * 64 + b1 % 64) * 64 + b2 % 64) * 64 + b3 % 64,
      rest,
      ground arith,
      rw (encode_four b0 b1 b2 b3 h k lo hi lo' hi' lo2 hi2 (ground arith)),
      last,
      omega arith,
      bytes.1.1.1,
    )

lead_cases :
    (b0 : ℕ) (s : Bytes)
    → scan scan_start (b0 ∷ s) ≡ true
    → (b0 ≤ 0x7F)
      ⊎ ((0xC2 ≤ b0) × (b0 ≤ 0xDF))
      ⊎ ((0xE0 ≤ b0) × (b0 ≤ 0xEF))
      ⊎ ((0xF0 ≤ b0) × (b0 ≤ 0xF4))
unfolding scan scan_byte lead
lead_cases b0 s e = ground arith

encode_one : (cp : ℕ) → cp ≤ 0x7F → encode_scalar cp ≡ cp ∷ []
unfolding encode_scalar
encode_one cp h = ground arith

begins : (b0 : ℕ) (s : Bytes) → All IsByte s → scan scan_start (b0 ∷ s) ≡ true → Begins (b0 ∷ s)
begins b0 s bytes e = elim (lead_cases b0 s e) [
  | inl one ↦ (
    b0,
    s,
    inl (omega arith),
    rw (encode_one b0 one),
    sym (scan_one b0 s (omega arith)) ∙ e,
    omega arith,
    bytes,
  )
  | inr (inl two) ↦ Begins-two b0 s two.0 two.1 bytes (sym (lead_two b0 s two.0 two.1) ∙ e)
  | inr (inr (inl three)) ↦
      Begins-three b0 s three.0 three.1 bytes (sym (lead_three b0 s three.0 three.1) ∙ e)
  | inr (inr (inr four)) ↦
      Begins-four b0 s four.0 four.1 bytes (sym (lead_four b0 s four.0 four.1) ∙ e)
]

scan_sound :
    (n : ℕ) (s : Bytes)
    → length s ≤ n
    → All IsByte s
    → scan scan_start s ≡ true
    → (cps : List ℕ) × All IsScalar cps × (s ≡ utf8 cps)
unfolding utf8
scan_sound n [] h bytes e = ([], tt, refl)
scan_sound zero (b ∷ s) h bytes e = absurd (omega arith)
scan_sound (suc n) (b ∷ s) h bytes e =
    let (cp, rest, scalar, split, next, shorter, below) = begins b s bytes.1 e in
    let (cps, scalars, tail) = scan_sound n rest (omega arith) below next in
    (cp ∷ cps, (scalar, scalars), split ∙ ap (◌++◌ (encode_scalar cp)) tail)

-- `valid_utf8` accepts a byte string exactly when it is the UTF-8 encoding of a sequence of code
-- points, each at most 0x10FFFF, no surrogate, and in its shortest form.
pub valid_utf8_iff :
    (s : Bytes)
    → All IsByte s
    → (valid_utf8 s ≡ true) ↔ ((cps : List ℕ) × All IsScalar cps × (s ≡ utf8 cps))
unfolding valid_utf8
valid_utf8_iff s bytes = (
  scan_sound (length s) s (omega arith) bytes,
  λ h. ap (scan scan_start) h.2 ∙ valid_utf8_complete h.0 h.1,
)
