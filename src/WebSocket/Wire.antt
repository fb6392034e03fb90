-- ===== src/WebSocket/Wire.antt =====
-- The big-endian numbers of the frame header: `append_u16`, `append_u64`, `read_u16`, `read_u64`.
use oklib.Common.{
  length, get_or, drop, Bytes, ℕ, zero, suc, ◌*◌, ◌/◌, ◌%◌, ◌^◌, ◌<◌, bit_and, bit_or, ◌≡◌, refl,
  ap, [], ◌∷◌, ◌++◌, arith,
}
use oklib.Common.Bits.{bit_and_byte, bit_or_byte}

unfoldable pub append_u16 : ℕ → Bytes
append_u16 value = bit_and (value / 2 ^ 8) 0xFF ∷ bit_and value 0xFF ∷ []

-- The loop over the shifts 56, 48, …, 0; `rounds` is how many are left.
append_bytes : ℕ → ℕ → Bytes
append_bytes zero value = []
append_bytes (suc rounds) value =
    bit_and (value / 2 ^ (rounds * 8)) 0xFF ∷ append_bytes rounds value

unfoldable pub append_u64 : ℕ → Bytes
unfolding append_bytes
append_u64 value = append_bytes 8 value

unfoldable pub read_u16 : Bytes → ℕ
read_u16 bytes = bit_or (get_or bytes 0 0 * 2 ^ 8) (get_or bytes 1 0) % 2 ^ 16

-- The loop `value = (value << 8) | data[i]`, on a `uint64_t`.
read_bytes : ℕ → ℕ → Bytes → ℕ
read_bytes zero value bytes = value
read_bytes (suc rounds) value bytes =
    read_bytes rounds (bit_or (value * 2 ^ 8 % 2 ^ 64) (get_or bytes 0 0)) (drop 1 bytes)

unfoldable pub read_u64 : Bytes → ℕ
unfolding read_bytes
read_u64 bytes = read_bytes 8 0 bytes

pub length-append_u16 : (v : ℕ) → length (append_u16 v) ≡ 2
unfolding append_u16
length-append_u16 v = refl

pub length-append_u64 : (v : ℕ) → length (append_u64 v) ≡ 8
unfolding append_u64
length-append_u64 v = refl

-- A 16-bit number survives the trip through its two bytes, whatever follows them.
pub read_u16-append_u16 : (v : ℕ) (rest : Bytes) → v < 2 ^ 16 → read_u16 (append_u16 v ++ rest) ≡ v
unfolding read_u16 append_u16
read_u16-append_u16 v rest h =
    rw (bit_and_byte (v / 256), bit_and_byte v, bit_or_byte (v / 256 % 256) (v % 256) (omega arith))
      (omega arith)

-- One round of the loop: the bytes above, shifted, and the next byte are the next prefix.
read_round :
    (above n : ℕ)
    → above ≡ n / 256
    → n < 2 ^ 64
    → bit_or (above * 2 ^ 8 % 2 ^ 64) (bit_and n 0xFF) ≡ n
read_round above n e h = omega (
  arith,
  bit_or_byte above (n % 256) (omega arith),
  ap (λ (t : ℕ). bit_or t (bit_and n 255)) (no_wrap above (omega arith)),
  ap (λ (t : ℕ). bit_or (above * 256) t) (bit_and_byte n),
)
  where
    no_wrap : (a : ℕ) → a < 2 ^ 56 → a * 256 % 2 ^ 64 ≡ a * 256
    no_wrap a p = omega arith

-- A 64-bit number survives the trip through its eight bytes, whatever follows them.
pub read_u64-append_u64 : (v : ℕ) (rest : Bytes) → v < 2 ^ 64 → read_u64 (append_u64 v ++ rest) ≡ v
unfolding read_u64 append_u64
read_u64-append_u64 v rest h =
    simp
      (
        read_round 0 (v / 2 ^ 56) (omega arith) (omega arith),
        read_round (v / 2 ^ 56) (v / 2 ^ 48) (omega arith) (omega arith),
        read_round (v / 2 ^ 48) (v / 2 ^ 40) (omega arith) (omega arith),
        read_round (v / 2 ^ 40) (v / 2 ^ 32) (omega arith) (omega arith),
        read_round (v / 2 ^ 32) (v / 2 ^ 24) (omega arith) (omega arith),
        read_round (v / 2 ^ 24) (v / 2 ^ 16) (omega arith) (omega arith),
        read_round (v / 2 ^ 16) (v / 2 ^ 8) (omega arith) (omega arith),
        read_round (v / 2 ^ 8) (v / 1) (omega arith) (omega arith),
      )
      (omega arith)
