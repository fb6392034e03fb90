-- ===== src/WebSocket/Parser/Encoded.antt =====
-- How the parts of an encoded frame are read: first byte, length, key, payload.
use oklib.Common.{
  leb, Bool-cases, length, get_or, take, drop, length-append, take-append_exact, drop-append_exact,
  drop-append_add, Bytes, ℕ, suc, ◌+◌, ◌%◌, ◌^◌, ◌≤◌, ◌<◌, bit_and, bit_or, ◌≡◌, refl, sym, ap, ◌∙◌,
  inl, inr, Bool, true, false, some, [], ◌∷◌, ◌++◌, arith,
}
use oklib.Common.Bits.{bit_and_low7, bit_and_0x80, bit_and_above, bit_or_seven}
use oklib.WebSocket.Wire.{
  append_u16, append_u64, length-append_u16, length-append_u64, read_u16-append_u16,
  read_u64-append_u64,
}
use oklib.WebSocket.{
  valid_opcode, key_bytes, apply_mask, length-apply_mask, apply_mask_twice, Frame, MaskKey, Opcode,
  Masking, unmasked, masked,
}
use oklib.WebSocket.Encoder.{first_byte, mask_bit, length_bytes, body_bytes}
use oklib.WebSocket.Parser.{bit_set, read_length, zero_key, read_key, unmask, done}

-- The five fields of the first byte come back out of it.
pub first_byte_fields :
    (frame : Frame)
    → (valid_opcode (bit_and (first_byte frame) 0x0F) ≡ some frame.opcode)
      × (bit_set (first_byte frame) 0x80 ≡ frame.fin)
      × (bit_set (first_byte frame) 0x40 ≡ frame.rsv1)
      × (bit_set (first_byte frame) 0x20 ≡ frame.rsv2)
      × (bit_set (first_byte frame) 0x10 ≡ frame.rsv3)
unfolding first_byte valid_opcode
first_byte_fields frame = fields frame.opcode frame.fin frame.rsv1 frame.rsv2 frame.rsv3
  where
    fields :
        (opcode : Opcode) (fin rsv1 rsv2 rsv3 : Bool)
        → let byte = first_byte (record {
          fin = fin;
          rsv1 = rsv1;
          rsv2 = rsv2;
          rsv3 = rsv3;
          opcode = opcode;
          payload = [];
        }) in
          (valid_opcode (bit_and byte 0x0F) ≡ some opcode)
          × (bit_set byte 0x80 ≡ fin)
          × (bit_set byte 0x40 ≡ rsv1)
          × (bit_set byte 0x20 ≡ rsv2)
          × (bit_set byte 0x10 ≡ rsv3)
    fields opcode fin rsv1 rsv2 rsv3 = ground arith

abbrev pub is_masked : Masking → Bool
is_masked masked = true
is_masked unmasked = false

-- The second byte holds the mask bit and seven bits.
pub second_byte :
    (masking : Masking) (n : ℕ)
    → n < 128
    → (bit_set (bit_or (mask_bit masking) n) 0x80 ≡ is_masked masking)
      × (bit_and (bit_or (mask_bit masking) n) 0x7F ≡ n)
second_byte masked n h =
    ground (arith, bit_or_seven 1 n h, bit_and_0x80 (128 + n), bit_and_low7 (128 + n))
second_byte unmasked n h = ground (arith, bit_or_seven 0 n h, bit_and_0x80 n, bit_and_low7 n)

wide : (len : ℕ) → len < 2 ^ 63 → len % 2 ^ 64 ≡ len
wide len h = omega arith

module _ (byte0 : ℕ) (masking : Masking) (tail : Bytes) where
  abbrev pub headed : Bytes → Bytes
  headed mid = byte0 ∷ (mid ++ tail)

  -- What the second byte and the extended length of an encoded frame are read as.
  abbrev pub ReadsLength : ℕ → Bytes → Type 0
  ReadsLength len mid =
      (bit_set (get_or (headed mid) 1 0) 0x80 ≡ is_masked masking)
      × (read_length (bit_and (get_or (headed mid) 1 0) 0x7F) (length (headed mid)) (headed mid)
          ≡ done (len, suc (length mid)))

  reads_short :
      (len : ℕ) → len ≤ 125 → ReadsLength len (bit_or (mask_bit masking) (len % 2 ^ 8) ∷ [])
  unfolding read_length
  reads_short len h =
      let byte = second_byte masking (len % 2 ^ 8) (omega arith) in
      (byte.0, rw (byte.1) (ground arith))

  reads_u16 :
      (len : ℕ)
      → 125 < len
      → len ≤ 0xFFFF
      → ReadsLength len (bit_or (mask_bit masking) 126 ∷ append_u16 (len % 2 ^ 16))
  unfolding read_length
  reads_u16 len h k =
      let byte = second_byte masking 126 (omega arith) in
      (
        byte.0,
        rw byte.1 (
            ground (
              arith,
              length-append (append_u16 (len % 2 ^ 16)) tail,
              length-append_u16 (len % 2 ^ 16),
              read_u16-append_u16 (len % 2 ^ 16) tail,
            )),
      )

  reads_u64 :
      (len : ℕ)
      → 0xFFFF < len
      → len < 2 ^ 63
      → ReadsLength len (bit_or (mask_bit masking) 127 ∷ append_u64 (len % 2 ^ 64))
  unfolding read_length
  reads_u64 len h k =
      let byte = second_byte masking 127 (omega arith) in
      (
        byte.0,
        rw byte.1 (
            ground (
              arith,
              length-append (append_u64 (len % 2 ^ 64)) tail,
              length-append_u64 (len % 2 ^ 64),
              read_u64-append_u64 (len % 2 ^ 64) tail,
              bit_and_above 63 len k,
              wide len k,
            )),
      )

  pub reads_length : (len : ℕ) → len < 2 ^ 63 → ReadsLength len (length_bytes masking len)
  unfolding length_bytes
  reads_length len h = elim (Bool-cases (leb len 125)) [
    | inl short ↦ rw short (reads_short len (ground arith))
    | inr long ↦ elim (Bool-cases (leb len 0xFFFF)) [
      | inl two ↦ rw (long, two) (reads_u16 len (ground arith) (ground arith))
      | inr eight ↦ rw (long, eight) (reads_u64 len (ground arith) h)
    ]
  ]

abbrev pub used_key : Masking → MaskKey → MaskKey
used_key masked key = key
used_key unmasked key = zero_key

abbrev pub key_size : Masking → ℕ
key_size masked = 4
key_size unmasked = 0

-- Behind a header of `n` bytes stand the key, if the frame is masked, and the payload.
module _ (front : Bytes) (key : MaskKey) (payload rest : Bytes) where
  abbrev pub whole : Masking → Bytes
  whole masking = front ++ (body_bytes masking key payload ++ rest)

  pub reads_key :
      (masking : Masking)
      → read_key (is_masked masking) (length (whole masking)) (whole masking) (length front)
        ≡ done (used_key masking key, length front + key_size masking)
  unfolding read_key body_bytes
  reads_key masked =
      rw
        (drop-append_exact (length front) front (key_bytes key ++ apply_mask key 0 payload ++ rest)
          refl)
        (ground (arith, length-append front (key_bytes key ++ apply_mask key 0 payload ++ rest)))
  reads_key unmasked = ground arith

  pub payload_behind :
      (masking : Masking)
      → unmask
          (is_masked masking)
          (used_key masking key)
          (take (length payload) (drop (length front + key_size masking) (whole masking)))
        ≡ payload
  unfolding body_bytes
  payload_behind masked =
      rw (drop-append_add front (key_bytes key ++ apply_mask key 0 payload ++ rest) 4) (
        ap (apply_mask key 0) (
          take-append_exact (length payload) (apply_mask key 0 payload) rest
            (sym (length-apply_mask key 0 payload)))
        ∙ apply_mask_twice key 0 payload)
  payload_behind unmasked =
      rw (drop-append_add front (payload ++ rest) 0)
        (take-append_exact (length payload) payload rest refl)

  pub room_behind :
      (masking : Masking)
      → length (whole masking) ≡ length front + key_size masking + length payload + length rest
  unfolding body_bytes
  room_behind masked = omega (
    arith,
    length-append front (key_bytes key ++ apply_mask key 0 payload ++ rest),
    length-append (apply_mask key 0 payload) rest,
    length-apply_mask key 0 payload,
  )
  room_behind unmasked =
      omega (arith, length-append front (payload ++ rest), length-append payload rest)

pub length-body_bytes :
    (masking : Masking) (key : MaskKey) (payload : Bytes)
    → length (body_bytes masking key payload) ≡ key_size masking + length payload
unfolding body_bytes
length-body_bytes masked key payload = omega (arith, length-apply_mask key 0 payload)
length-body_bytes unmasked key payload = omega arith
