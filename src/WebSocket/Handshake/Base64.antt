-- ===== src/WebSocket/Handshake/Base64.antt =====
-- What `base64_encode` writes is read back by a decoder of RFC 4648.
use oklib.Common.Bits.{bit_and_six, bit_or_byte, bit_or_field}
use oklib.Http.Text.{within}
use oklib.WebSocket.Handshake.{base64_char, triple, sextet, base64_encode}
use oklib.Common.{
  ◌==◌, if◌then◌else◌, Bool-cases, take, All, Bytes, IsByte, ℕ, zero, suc, ◌+◌, ◌-◌, ◌*◌, ◌/◌, ◌%◌,
  ◌^◌, ◌<◌, bit_or, ◌≡◌, refl, ap, ◌∙◌, inl, inr, Bool, true, false, not, ◌&&◌, [], ◌∷◌, ◌++◌,
  arith,
}

-- The alphabet of RFC 4648, section 4: the value of a character, and 64 for every other.
pub base64_value : ℕ → ℕ
base64_value c =
    if within b'A' b'Z' c
    then c - b'A'
    else if within b'a' b'z' c
    then c - b'a' + 26
    else if within b'0' b'9' c
    then c - b'0' + 52
    else if c == b'+'
    then 62
    else if c == b'/'
    then 63
    else 64

abbrev three_of : ℕ → Bytes
three_of n = n / 65536 ∷ n / 256 % 256 ∷ n % 256 ∷ []

-- The three bytes of four places.
abbrev three_bytes : ℕ → ℕ → ℕ → ℕ → Bytes
three_bytes p q r s = three_of (p * 262144 + q * 4096 + r * 64 + s)

-- One `=` at the end stands for two bytes, two for one.
abbrev pub base64_decode : Bytes → Bytes
base64_decode (p ∷ q ∷ r ∷ s ∷ rest) =
    let more = base64_decode rest in
    let p = base64_value p in
    let q = base64_value q in
    if r == b'='
    then take 1 (three_bytes p q 0 0)
    else if s == b'='
    then take 2 (three_bytes p q (base64_value r) 0)
    else three_bytes p q (base64_value r) (base64_value s) ++ more
base64_decode _ = []

abbrev all_below : (ℕ → Bool) → ℕ → Bool
all_below test zero = true
all_below test (suc n) = all_below test n && test n

same_lem : (i n : ℕ) → (i == n) ≡ true → i ≡ n
same_lem i n e = ground arith

below_lem : (i n : ℕ) → i < suc n → (i == n) ≡ false → i < n
below_lem i n h e = ground arith

first_lem : (p q : Bool) → (p && q) ≡ true → p ≡ true
first_lem p q h = ground arith

last_lem : (p q : Bool) → (p && q) ≡ true → q ≡ true
last_lem p q h = ground arith

all_below-at : (test : ℕ → Bool) (n i : ℕ) → i < n → all_below test n ≡ true → test i ≡ true
all_below-at test zero i h k = absurd (omega arith)
all_below-at test (suc n) i h k = elim (Bool-cases (i == n)) [
  | inl e ↦ ap test (same_lem i n e) ∙ last_lem (all_below test n) (test n) k
  | inr e ↦ all_below-at test n i (below_lem i n h e) (first_lem (all_below test n) (test n) k)
]

-- The character of a value has that value, and is not `=`.
abbrev at_place : ℕ → Bool
at_place i = base64_value (base64_char i) == i && not (base64_char i == b'=')

alphabet : (i : ℕ) → at_place (i % 64) ≡ true
unfolding base64_value
alphabet i = all_below-at at_place 64 (i % 64) (omega arith) refl

triple_lem : (a b c : ℕ) → a < 256 → b < 256 → c < 256 → triple a b c ≡ a * 65536 + b * 256 + c
triple_lem a b c p q r =
    ap (λ (t : ℕ). bit_or (bit_or t (b * 256 % 2 ^ 32)) c) high
    ∙ ap (λ (t : ℕ). bit_or (bit_or (a * 65536) t) c) middle
    ∙ ap (λ (t : ℕ). bit_or t c) (bit_or_field 16 a (b * 256) (omega arith) ∙ both)
    ∙ bit_or_byte (a * 256 + b) c r
    ∙ whole
  where
    high : a * 65536 % 2 ^ 32 ≡ a * 65536
    high = omega arith

    middle : b * 256 % 2 ^ 32 ≡ b * 256
    middle = omega arith

    both : a * 65536 + b * 256 ≡ (a * 256 + b) * 256
    both = omega arith

    whole : (a * 256 + b) * 256 + c ≡ a * 65536 + b * 256 + c
    whole = omega arith

false_of : (p : Bool) → not p ≡ true → p ≡ false
false_of p h = ground arith

-- A sextet is read as its value, and is not `=`.
sextet-value : (place t : ℕ) → base64_value (sextet place t) ≡ t / place % 64
sextet-value place t = rw (bit_and_six (t / place)) (
    same_lem (base64_value (base64_char (t / place % 64))) (t / place % 64) (
      first_lem (base64_value (base64_char (t / place % 64)) == t / place % 64)
        (not (base64_char (t / place % 64) == b'=')) (alphabet (t / place))))

sextet-plain : (place t : ℕ) → (sextet place t == b'=') ≡ false
sextet-plain place t = rw (bit_and_six (t / place)) (
    false_of (base64_char (t / place % 64) == b'=') (
      last_lem (base64_value (base64_char (t / place % 64)) == t / place % 64)
        (not (base64_char (t / place % 64) == b'=')) (alphabet (t / place))))

sextets_lem :
    (t : ℕ)
    → t < 2 ^ 24
    → t / 262144 % 64 * 262144 + t / 4096 % 64 * 4096 + t / 64 % 64 * 64 + t / 1 % 64 ≡ t
sextets_lem t h = omega arith

bytes_of :
    (a b c : ℕ) → a < 256 → b < 256 → c < 256 → three_of (a * 65536 + b * 256 + c) ≡ a ∷ b ∷ c ∷ []
bytes_of a b c p q r = ground arith

-- The sextets of three bytes are read as the three bytes.
four_places :
    (a b c : ℕ)
    → a < 256
    → b < 256
    → c < 256
    → three_bytes
        (base64_value (sextet 262144 (triple a b c)))
        (base64_value (sextet 4096 (triple a b c)))
        (base64_value (sextet 64 (triple a b c)))
        (base64_value (sextet 1 (triple a b c)))
      ≡ a ∷ b ∷ c ∷ []
four_places a b c p q r =
    rw
      (
        sextet-value 262144 (triple a b c),
        sextet-value 4096 (triple a b c),
        sextet-value 64 (triple a b c),
        sextet-value 1 (triple a b c),
        triple_lem a b c p q r,
      )
      (ap (three_of) (sextets_lem (a * 65536 + b * 256 + c) (omega arith)) ∙ bytes_of a b c p q r)

-- For any bytes: a decoder with the alphabet of RFC 4648, and its `=` at the end, reads back what was
-- encoded.
pub base64_decode-encode : (xs : Bytes) → All IsByte xs → base64_decode (base64_encode xs) ≡ xs
unfolding base64_encode
base64_decode-encode [] h = refl
base64_decode-encode (a ∷ []) h =
    rw
      (
        sextet-value 262144 (triple a 0 0),
        sextet-value 4096 (triple a 0 0),
        triple_lem a 0 0 h.0 (omega arith) (omega arith),
      )
      (ap (λ x. x ∷ []) (omega (arith, h.0)))
base64_decode-encode (a ∷ b ∷ []) h =
    rw
      (
        sextet-plain 64 (triple a b 0),
        sextet-value 262144 (triple a b 0),
        sextet-value 4096 (triple a b 0),
        sextet-value 64 (triple a b 0),
        triple_lem a b 0 h.0 h.1.0 (omega arith),
      )
      (ground (arith, h.0, h.1.0))
base64_decode-encode (a ∷ b ∷ c ∷ rest) h =
    rw (sextet-plain 64 (triple a b c), sextet-plain 1 (triple a b c))
      (ap (λ (t : Bytes). t ++ base64_decode (base64_encode rest))
          (four_places a b c h.0 h.1.0 h.1.1.0)
        ∙ ap (λ (t : Bytes). a ∷ b ∷ c ∷ t) (base64_decode-encode rest h.1.1.1))
