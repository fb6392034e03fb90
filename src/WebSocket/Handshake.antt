-- ===== src/WebSocket/Handshake.antt =====
-- src/websocket/websocket_handshake.cpp: Base64, SHA-1, the accept key, and the checks on an
-- upgrade request. The random bytes of `websocket_generate_key` are an argument.
pub mod Base64
pub mod Sha1
pub mod Upgrade
mod Tests
use oklib.Common.{
  ltb, ◌==◌, if◌then◌else◌, length, get_or, take, drop, replicate, Bytes, codes, ℕ, zero, suc, ◌+◌,
  ◌-◌, ◌*◌, ◌/◌, ◌%◌, ◌^◌, min, bit_and, bit_or, bit_xor, [], ◌∷◌, ◌++◌,
}

abbrev pub k_base64 : Bytes
k_base64 = codes "ABCDEFGHIJKLMNOPQRSTUVWXYZabcdefghijklmnopqrstuvwxyz0123456789+/"

abbrev pub base64_char : ℕ → ℕ
base64_char i = get_or k_base64 i 0

-- `a << 16 | b << 8 | c`, of 32 bits.
abbrev pub triple : ℕ → ℕ → ℕ → ℕ
triple a b c = bit_or (bit_or (a * 65536 % 2 ^ 32) (b * 256 % 2 ^ 32)) c

-- `k_base64[(triple >> shift) & 0x3F]`; the argument is 2 to the power of the shift.
abbrev pub sextet : ℕ → ℕ → ℕ
sextet place t = base64_char (bit_and (t / place) 63)

unfoldable pub base64_encode : Bytes → Bytes
base64_encode [] = []
base64_encode (a ∷ []) = let t = triple a 0 0 in sextet 262144 t ∷ sextet 4096 t ∷ b'=' ∷ b'=' ∷ []
base64_encode (a ∷ b ∷ []) =
    let t = triple a b 0 in sextet 262144 t ∷ sextet 4096 t ∷ sextet 64 t ∷ b'=' ∷ []
base64_encode (a ∷ b ∷ c ∷ rest) =
    let t = triple a b c in
    sextet 262144 t ∷ sextet 4096 t ∷ sextet 64 t ∷ sextet 1 t ∷ base64_encode rest

-- `left_rotate`, by `n` below 32.
abbrev pub left_rotate : ℕ → ℕ → ℕ
left_rotate value n = bit_or (value * 2 ^ n % 2 ^ 32) (value / 2 ^ (32 - n))

-- `~` on 32 bits.
abbrev pub complement : ℕ → ℕ
complement b = 2 ^ 32 - 1 - b

pub record Words : Type 0 where
  pub a : ℕ
  pub b : ℕ
  pub c : ℕ
  pub d : ℕ
  pub e : ℕ

-- `block` holds the first `block_size` bytes.
pub record Sha1State : Type 0 where
  pub h : Words
  pub block : Bytes
  pub total_bytes : ℕ

unfoldable pub new_sha1 : Sha1State
new_sha1 = record {
  h = record { a = 0x67452301; b = 0xEFCDAB89; c = 0x98BADCFE; d = 0x10325476; e = 0xC3D2E1F0 };
  block = [];
  total_bytes = 0;
}

-- The four bytes at the front.
abbrev pub word_of : ℕ → ℕ → ℕ → ℕ → ℕ
word_of p q r s =
    bit_or (bit_or (bit_or (p * 16777216 % 2 ^ 32) (q * 65536 % 2 ^ 32)) (r * 256 % 2 ^ 32)) s

-- The first loop over `w`. The words are kept with the newest first.
unfoldable pub block_words : Bytes → Bytes → Bytes
block_words (p ∷ q ∷ r ∷ s ∷ rest) ws = block_words rest (word_of p q r s ∷ ws)
block_words _ ws = ws

-- The second loop: `w[i - 3] ^ w[i - 8] ^ w[i - 14] ^ w[i - 16]`.
unfoldable pub extend_words : ℕ → Bytes → Bytes
extend_words zero ws = ws
extend_words (suc n) ws =
    let x =
      bit_xor (bit_xor (bit_xor (get_or ws 2 0) (get_or ws 7 0)) (get_or ws 13 0))
        (get_or ws 15 0) in
    extend_words n (left_rotate x 1 ∷ ws)

-- `f` and `k` of a round.
unfoldable pub round_f : ℕ → Words → ℕ × ℕ
round_f i s =
    if ltb i 20
    then (bit_or (bit_and s.b s.c) (bit_and (complement s.b) s.d), 0x5A827999)
    else if ltb i 40
    then (bit_xor (bit_xor s.b s.c) s.d, 0x6ED9EBA1)
    else if ltb i 60
    then (bit_or (bit_or (bit_and s.b s.c) (bit_and s.b s.d)) (bit_and s.c s.d), 0x8F1BBCDC)
    else (bit_xor (bit_xor s.b s.c) s.d, 0xCA62C1D6)

unfoldable pub sha1_round : ℕ → ℕ → Words → Words
sha1_round i w s =
    let (f, k) = round_f i s in
    record {
      a = (left_rotate s.a 5 + f + s.e + k + w) % 2 ^ 32;
      b = s.a;
      c = left_rotate s.b 30;
      d = s.c;
      e = s.d;
    }

-- The third loop, over the words in their order.
unfoldable pub sha1_rounds : ℕ → Bytes → Words → Words
sha1_rounds i [] s = s
sha1_rounds i (w ∷ ws) s = sha1_rounds (i + 1) ws (sha1_round i w s)

abbrev pub backwards : Bytes → Bytes → Bytes
backwards [] acc = acc
backwards (x ∷ xs) acc = backwards xs (x ∷ acc)

abbrev pub add_words : Words → Words → Words
add_words s t = record {
  a = (s.a + t.a) % 2 ^ 32;
  b = (s.b + t.b) % 2 ^ 32;
  c = (s.c + t.c) % 2 ^ 32;
  d = (s.d + t.d) % 2 ^ 32;
  e = (s.e + t.e) % 2 ^ 32;
}

unfoldable pub process_block : Bytes → Words → Words
process_block bytes h =
    add_words h (sha1_rounds 0 (backwards (extend_words 64 (block_words bytes [])) []) h)

-- The loop of `update`. Every round takes a byte at least, since the block is never full between
-- rounds.
unfoldable pub update_loop : ℕ → Bytes → Sha1State → Sha1State
update_loop fuel [] s = s
update_loop zero (x ∷ xs) s = s
update_loop (suc fuel) (x ∷ xs) s =
    let copy = min (length (x ∷ xs)) (64 - length s.block) in
    let filled = s.block ++ take copy (x ∷ xs) in
    let rest = drop copy (x ∷ xs) in
    let full = update_loop fuel rest (record s { h = process_block filled s.h; block = [] }) in
    let partial = update_loop fuel rest (record s { block = filled }) in
    if length filled == 64 then full else partial

unfoldable pub update : Bytes → Sha1State → Sha1State
update bytes s =
    update_loop (length bytes) bytes
      (record s { total_bytes = (s.total_bytes + length bytes) % 2 ^ 64 })

abbrev pub byte_of : ℕ → ℕ → ℕ
byte_of place n = bit_and (n / place) 255

abbrev pub word_bytes : ℕ → Bytes
word_bytes w = byte_of 16777216 w ∷ byte_of 65536 w ∷ byte_of 256 w ∷ byte_of 1 w ∷ []

-- The eight bytes of `total_bits`.
abbrev pub bits_bytes : ℕ → Bytes
bits_bytes n =
    byte_of (2 ^ 56) n ∷ byte_of (2 ^ 48) n ∷ byte_of (2 ^ 40) n ∷ byte_of (2 ^ 32) n ∷ word_bytes n

abbrev pub zeros_to : ℕ → Bytes → Bytes
zeros_to n block = block ++ replicate (n - length block) 0

unfoldable pub final : Sha1State → Bytes
final s =
    let padded = s.block ++ 0x80 ∷ [] in
    let bits = bits_bytes (s.total_bytes * 8 % 2 ^ 64) in
    let full = process_block (zeros_to 64 padded) s.h in
    let last : Words =
      if ltb 56 (length padded)
      then process_block (zeros_to 56 [] ++ bits) full
      else process_block (zeros_to 56 padded ++ bits) s.h in
    word_bytes last.a
    ++ (word_bytes last.b ++ (word_bytes last.c ++ (word_bytes last.d ++ word_bytes last.e)))

abbrev pub k_websocket_magic : Bytes
k_websocket_magic = codes "258EAFA5-E914-47DA-95CA-C5AB0DC85B11"

unfoldable pub websocket_accept_key : Bytes → Bytes
websocket_accept_key key = base64_encode (final (update (key ++ k_websocket_magic) new_sha1))

unfoldable pub websocket_generate_key : Bytes → Bytes
websocket_generate_key random_bytes = base64_encode random_bytes
