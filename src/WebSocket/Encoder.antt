-- ===== src/WebSocket/Encoder.antt =====
-- `encode_websocket_frame`. The random key of the library's generator is an argument; it is used
-- where the caller gives none.
use oklib.Common.{
  leb, if◌then◌else◌, length, length-append, Bytes, ℕ, ◌%◌, ◌^◌, ◌≤◌, bit_or, Bool, Option, none,
  some, [], ◌∷◌, ◌++◌, arith,
}
use oklib.WebSocket.{opcode_value, key_bytes, apply_mask, Frame, MaskKey, Masking, unmasked, masked}
use oklib.WebSocket.Wire.{append_u16, append_u64}

abbrev set_flag : Bool → ℕ → ℕ → ℕ
set_flag flag bit byte = if flag then bit_or byte bit else byte

unfoldable pub first_byte : Frame → ℕ
unfolding opcode_value
first_byte frame = set_flag frame.rsv3 0x10 (
    set_flag frame.rsv2 0x20
      (set_flag frame.rsv1 0x40 (set_flag frame.fin 0x80 (opcode_value frame.opcode))))

abbrev pub mask_bit : Masking → ℕ
mask_bit masked = 0x80
mask_bit unmasked = 0x00

-- The second byte and the extended length.
unfoldable pub length_bytes : Masking → ℕ → Bytes
length_bytes masking len =
    let second = mask_bit masking in
    if leb len 125
    then bit_or second (len % 2 ^ 8) ∷ []
    else if leb len 0xFFFF
    then bit_or second 126 ∷ append_u16 (len % 2 ^ 16)
    else bit_or second 127 ∷ append_u64 (len % 2 ^ 64)

abbrev pub value_or : Option MaskKey → MaskKey → MaskKey
value_or (some key) random_key = key
value_or none random_key = random_key

-- The key and the payload under it, or the payload alone.
unfoldable pub body_bytes : Masking → MaskKey → Bytes → Bytes
body_bytes masked key payload = key_bytes key ++ apply_mask key 0 payload
body_bytes unmasked key payload = payload

unfoldable pub encode_websocket_frame : Frame → Masking → Option MaskKey → MaskKey → Bytes
encode_websocket_frame frame masking mask_key random_key =
    first_byte frame
    ∷ (length_bytes masking (length frame.payload)
        ++ body_bytes masking (value_or mask_key random_key) frame.payload)

length_bytes_pos : (masking : Masking) (len : ℕ) → 1 ≤ length (length_bytes masking len)
unfolding length_bytes
length_bytes_pos masking len = ground arith

-- An encoded frame has its two header bytes.
pub two-le-encode :
    (frame : Frame) (masking : Masking) (mask_key : Option MaskKey) (random_key : MaskKey)
    → 2 ≤ length (encode_websocket_frame frame masking mask_key random_key)
unfolding encode_websocket_frame
two-le-encode frame masking mask_key random_key =
    let mid = length_bytes masking (length frame.payload) in
    omega (
      arith,
      length_bytes_pos masking (length frame.payload),
      length-append mid (body_bytes masking (value_or mask_key random_key) frame.payload),
    )
