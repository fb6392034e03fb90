-- ===== src/WebSocket.antt =====
-- WebSocket framing: the frame types and what the frame functions share
-- (include/oklib/websocket/websocket_frame.h, src/websocket/websocket_frame.cpp).
pub mod Wire
pub mod Encoder
pub mod Parser
pub mod Utf8
pub mod Assembler
pub mod Handshake
mod Tests
use oklib.Common.{
  leb, ◌==◌, if◌then◌else◌, length, get_or, Bytes, ℕ, suc, ◌+◌, ◌%◌, bit_xor, ◌≡◌, refl, ap, ap₂,
  Bool, true, false, Option, none, some, [], ◌∷◌,
}
use oklib.Common.Bits.{xor_twice}

pub data Opcode : Type 0 where
  continuation text binary close ping pong : Opcode

pub data Role : Type 0 where
  client server : Role

pub data Masking : Type 0 where
  unmasked masked : Masking

pub data WebSocketError : Type 0 where
  no_error bad_handshake unsupported_url tls_not_enabled connection_error protocol_error :
      WebSocketError
  message_too_big invalid_utf8 compression_error : WebSocketError

pub record Options : Type 0 where
  pub max_frame_payload : ℕ
  pub max_message_payload : ℕ
  pub enable_compression : Bool

pub record Frame : Type 0 where
  pub fin : Bool
  pub rsv1 : Bool
  pub rsv2 : Bool
  pub rsv3 : Bool
  pub opcode : Opcode
  pub payload : Bytes

-- The number that the enumeration gives an opcode.
unfoldable pub opcode_value : Opcode → ℕ
opcode_value continuation = 0x0
opcode_value text = 0x1
opcode_value binary = 0x2
opcode_value close = 0x8
opcode_value ping = 0x9
opcode_value pong = 0xA

unfoldable pub is_control_opcode : Opcode → Bool
unfolding opcode_value
is_control_opcode opcode = leb 0x8 (opcode_value opcode)

unfoldable pub is_data_opcode : Opcode → Bool
is_data_opcode text = true
is_data_opcode binary = true
is_data_opcode _ = false

-- `valid_opcode`, and the cast to the enumeration behind it.
unfoldable pub valid_opcode : ℕ → Option Opcode
valid_opcode value =
    if value == 0x0
    then some continuation
    else if value == 0x1
    then some text
    else if value == 0x2
    then some binary
    else if value == 0x8
    then some close
    else if value == 0x9
    then some ping
    else if value == 0xA
    then some pong
    else none

-- `std::array<unsigned char, 4>`, and `key[i % key.size()]`.
pub record MaskKey : Type 0 where
  pub byte0 : ℕ
  pub byte1 : ℕ
  pub byte2 : ℕ
  pub byte3 : ℕ

abbrev pub key_bytes : MaskKey → Bytes
key_bytes key = key.byte0 ∷ key.byte1 ∷ key.byte2 ∷ key.byte3 ∷ []

-- The payload from index `i` on, each byte combined with its key byte.
unfoldable pub apply_mask : MaskKey → ℕ → Bytes → Bytes
apply_mask key i [] = []
apply_mask key i (c ∷ cs) = bit_xor c (get_or (key_bytes key) (i % 4) 0) ∷ apply_mask key (i + 1) cs

pub length-apply_mask :
    (key : MaskKey) (i : ℕ) (cs : Bytes) → length (apply_mask key i cs) ≡ length cs
unfolding apply_mask
length-apply_mask key i [] = refl
length-apply_mask key i (c ∷ cs) = ap suc (length-apply_mask key (i + 1) cs)

-- Masking is undone by the same key.
pub apply_mask_twice :
    (key : MaskKey) (i : ℕ) (cs : Bytes) → apply_mask key i (apply_mask key i cs) ≡ cs
unfolding apply_mask
apply_mask_twice key i [] = refl
apply_mask_twice key i (c ∷ cs) = ap₂ ◌∷◌ (xor_twice c _) (apply_mask_twice key (i + 1) cs)
