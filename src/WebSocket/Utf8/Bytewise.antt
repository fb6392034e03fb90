-- ===== src/WebSocket/Utf8/Bytewise.antt =====
-- What the scan does with each byte, and that it accepts the encoding of every code point.
use oklib.Common.{
  ltb, Bool-cases, All, Bytes, ℕ, suc, ◌+◌, ◌*◌, ◌/◌, ◌%◌, ◌^◌, ◌≤◌, ◌<◌, ◌≡◌, refl, ◌∙◌, inl, inr,
  true, false, List, [], ◌∷◌, ◌++◌, arith,
}
use oklib.Common.Bits.{
  bit_and_seven, bit_and_fifteen, bit_and_five, bit_and_six, bit_and_0xc0, bit_or_six,
}
use oklib.WebSocket.Utf8.{
  push_bits, lead, rejected, continue_with, scan_byte, scan, scan_start, IsScalar, encode_scalar,
  utf8, Scan,
}

abbrev pub at_lead : ℕ → ℕ → Scan
at_lead cp low = record { codepoint = cp; remaining = 0; min_value = low }

abbrev pub inside : ℕ → ℕ → ℕ → Scan
inside cp left low = record { codepoint = cp; remaining = left; min_value = low }

pub push_bits_lem : (cp byte : ℕ) → cp < 2 ^ 20 → push_bits cp byte ≡ cp * 64 + byte % 64
unfolding push_bits
push_bits_lem cp byte h = ground (arith, bit_and_six byte, bit_or_six cp (byte % 64), no_wrap cp h)
  where
    no_wrap : (n : ℕ) → n < 2 ^ 20 → n * 64 % 2 ^ 32 ≡ n * 64
    no_wrap n p = omega arith

-- What an earlier code point has left in the locals is not read.
pub scan_stale : (cp low : ℕ) (s : Bytes) → scan (at_lead cp low) s ≡ scan scan_start s
unfolding scan scan_byte lead
scan_stale cp low [] = refl
scan_stale cp low (byte ∷ rest) = ground (arith, scan_stale cp low rest)

-- A continuation byte that is not the last.
scan_middle :
    (cp left low byte : ℕ) (rest : Bytes)
    → 128 ≤ byte
    → byte < 192
    → cp < 2 ^ 20
    → scan (inside cp (suc (suc left)) low) (byte ∷ rest)
      ≡ scan (inside (cp * 64 + byte % 64) (suc left) low) rest
unfolding scan scan_byte continue_with
scan_middle cp left low byte rest h k l = ground (arith, push_bits_lem cp byte l, bit_and_0xc0 byte)

scan_last :
    (cp low byte : ℕ) (rest : Bytes)
    → 128 ≤ byte
    → byte < 192
    → cp < 2 ^ 20
    → rejected low (cp * 64 + byte % 64) ≡ false
    → scan (inside cp 1 low) (byte ∷ rest) ≡ scan scan_start rest
unfolding scan scan_byte continue_with
scan_last cp low byte rest h k l r =
    ground
      (arith, push_bits_lem cp byte l, bit_and_0xc0 byte, scan_stale (cp * 64 + byte % 64) low rest)

pub scan_one :
    (cp : ℕ) (rest : Bytes) → cp < 0x80 → scan scan_start (cp ∷ rest) ≡ scan scan_start rest
unfolding scan scan_byte lead
scan_one cp rest h = ground arith

pub lead_two :
    (byte : ℕ) (rest : Bytes)
    → 0xC2 ≤ byte
    → byte ≤ 0xDF
    → scan scan_start (byte ∷ rest) ≡ scan (inside (byte % 32) 1 0x80) rest
unfolding scan scan_byte lead
lead_two byte rest h k = ground (arith, bit_and_five byte)

pub lead_three :
    (byte : ℕ) (rest : Bytes)
    → 0xE0 ≤ byte
    → byte ≤ 0xEF
    → scan scan_start (byte ∷ rest) ≡ scan (inside (byte % 16) 2 0x800) rest
unfolding scan scan_byte lead
lead_three byte rest h k = ground (arith, bit_and_fifteen byte)

pub lead_four :
    (byte : ℕ) (rest : Bytes)
    → 0xF0 ≤ byte
    → byte ≤ 0xF4
    → scan scan_start (byte ∷ rest) ≡ scan (inside (byte % 8) 3 0x10000) rest
unfolding scan scan_byte lead
lead_four byte rest h k = ground (arith, bit_and_seven byte)

scan_two :
    (cp : ℕ) (rest : Bytes)
    → 0x80 ≤ cp
    → cp < 0x800
    → scan scan_start ((0xC0 + cp / 64) ∷ (0x80 + cp % 64) ∷ rest) ≡ scan scan_start rest
scan_two cp rest h k =
    lead_two (0xC0 + cp / 64) _ (omega arith) (omega arith)
    ∙ scan_last ((0xC0 + cp / 64) % 32) 0x80 (0x80 + cp % 64) rest (omega arith) (omega arith)
        (omega arith) (ground arith)

scan_three :
    (cp : ℕ) (rest : Bytes)
    → 0x800 ≤ cp
    → cp < 0x10000
    → IsScalar cp
    → scan scan_start ((0xE0 + cp / 4096) ∷ (0x80 + cp / 64 % 64) ∷ (0x80 + cp % 64) ∷ rest)
      ≡ scan scan_start rest
scan_three cp rest h k s =
    lead_three (0xE0 + cp / 4096) _ (omega arith) (omega arith)
    ∙ scan_middle ((0xE0 + cp / 4096) % 16) 0 0x800 (0x80 + cp / 64 % 64) _ (omega arith)
        (omega arith) (omega arith)
    ∙ scan_last ((0xE0 + cp / 4096) % 16 * 64 + (0x80 + cp / 64 % 64) % 64) 0x800 (0x80 + cp % 64)
        rest (omega arith) (omega arith) (omega arith) (ground arith)

scan_four :
    (cp : ℕ) (rest : Bytes)
    → 0x10000 ≤ cp
    → cp < 0x110000
    → scan scan_start (
        (0xF0 + cp / 262144)
        ∷ (0x80 + cp / 4096 % 64)
        ∷ (0x80 + cp / 64 % 64)
        ∷ (0x80 + cp % 64)
        ∷ rest)
      ≡ scan scan_start rest
scan_four cp rest h k =
    lead_four (0xF0 + cp / 262144) _ (omega arith) (omega arith)
    ∙ scan_middle ((0xF0 + cp / 262144) % 8) 1 0x10000 (0x80 + cp / 4096 % 64) _ (omega arith)
        (omega arith) (omega arith)
    ∙ scan_middle ((0xF0 + cp / 262144) % 8 * 64 + (0x80 + cp / 4096 % 64) % 64) 0 0x10000
        (0x80 + cp / 64 % 64) _ (omega arith) (omega arith) (omega arith)
    ∙ scan_last
        (((0xF0 + cp / 262144) % 8 * 64 + (0x80 + cp / 4096 % 64) % 64) * 64
          + (0x80 + cp / 64 % 64) % 64)
        0x10000 (0x80 + cp % 64) rest (omega arith) (omega arith) (omega arith) (ground arith)

scan-encode_scalar :
    (cp : ℕ) (rest : Bytes)
    → IsScalar cp
    → scan scan_start (encode_scalar cp ++ rest) ≡ scan scan_start rest
unfolding encode_scalar
scan-encode_scalar cp rest s = elim (Bool-cases (ltb cp 0x80)) [
  | inl one ↦ rw one (scan_one cp rest (ground arith))
  | inr more ↦ elim (Bool-cases (ltb cp 0x800)) [
    | inl two ↦ rw (more, two) (scan_two cp rest (ground arith) (ground arith))
    | inr even_more ↦ elim (Bool-cases (ltb cp 0x10000)) [
      | inl three ↦ rw (more, even_more, three) (scan_three cp rest (ground arith) (ground arith) s)
      | inr four ↦ rw (more, even_more, four) (scan_four cp rest (ground arith) (ground arith))
    ]
  ]
]

pub valid_utf8_complete : (cps : List ℕ) → All IsScalar cps → scan scan_start (utf8 cps) ≡ true
unfolding utf8
valid_utf8_complete [] h = unfold scan in refl
valid_utf8_complete (cp ∷ cps) h =
    scan-encode_scalar cp (utf8 cps) h.0 ∙ valid_utf8_complete cps h.1
