-- ===== src/WebSocket/Parser/RoundTrip.antt =====
-- The parser takes an encoded frame off the front of the buffer.
use oklib.Common.{
  length, get_or, length-append, Bytes, ℕ, ◌+◌, ◌^◌, ◌<◌, bit_and, ◌≡◌, ap, ◌∙◌, Option, ◌∷◌, ◌++◌,
  append_assoc, arith,
}
use oklib.WebSocket.{Options, Frame, MaskKey, Role, client, server, Masking, unmasked, masked}
use oklib.WebSocket.Encoder.{first_byte, length_bytes, value_or, body_bytes, encode_websocket_frame}
use oklib.WebSocket.Parser.{
  bit_set, expected_mask, check_header, read_header, read_payload, parse_frame, done,
}
use oklib.WebSocket.Parser.Permitted.{IsPermitted}
use oklib.WebSocket.Parser.Encoded.{
  first_byte_fields, reads_length, used_key, key_size, whole, reads_key, payload_behind,
  room_behind, length-body_bytes,
}

abbrev pub masking_for : Role → Masking
masking_for server = masked
masking_for client = unmasked

-- The checks on the header pass for a permitted frame.
reads_header :
    (role : Role) (options : Options) (frame : Frame) (byte1 : ℕ)
    → IsPermitted options frame
    → bit_set byte1 0x80 ≡ expected_mask role
    → read_header role options (first_byte frame) byte1
      ≡ done (record {
        fin = frame.fin;
        rsv1 = frame.rsv1;
        rsv2 = frame.rsv2;
        rsv3 = frame.rsv3;
        opcode = frame.opcode;
        masked = expected_mask role;
        len7 = bit_and byte1 0x7F;
      })
unfolding read_header check_header
reads_header role options frame byte1 s m =
    ground (arith, first_byte_fields frame, s.no_rsv2, s.no_rsv3, s.rsv1_means_compressed)

-- The checks on the payload pass too, and give the frame back.
reads_payload :
    (role : Role) (options : Options) (frame : Frame) (len7 : ℕ) (front : Bytes) (key : MaskKey)
    (rest : Bytes)
    → IsPermitted options frame
    → let masking = masking_for role in
      let bytes = whole front key frame.payload rest masking in
      read_payload options
        (record {
          fin = frame.fin;
          rsv1 = frame.rsv1;
          rsv2 = frame.rsv2;
          rsv3 = frame.rsv3;
          opcode = frame.opcode;
          masked = expected_mask role;
          len7 = len7;
        })
        (length bytes)
        bytes
        (length frame.payload)
        (used_key masking key, length front + key_size masking)
      ≡ done (frame, length front + key_size masking + length frame.payload)
unfolding read_payload
reads_payload server options frame len7 front key rest s = ground (
  arith,
  s.within,
  s.control_short,
  room_behind front key frame.payload rest masked,
  payload_behind front key frame.payload rest masked,
)
reads_payload client options frame len7 front key rest s = ground (
  arith,
  s.within,
  s.control_short,
  room_behind front key frame.payload rest unmasked,
  payload_behind front key frame.payload rest unmasked,
)

parse_whole :
    (role : Role) (options : Options) (frame : Frame) (key : MaskKey) (rest : Bytes)
    → IsPermitted options frame
    → length frame.payload < 2 ^ 63
    → let masking = masking_for role in
      let front = first_byte frame ∷ length_bytes masking (length frame.payload) in
      let bytes = whole front key frame.payload rest masking in
      parse_frame role options (length bytes) bytes
      ≡ done (frame, length front + key_size masking + length frame.payload)
unfolding parse_frame
parse_whole server options frame key rest s h =
    let front = first_byte frame ∷ length_bytes masked (length frame.payload) in
    let bytes = whole front key frame.payload rest masked in
    let read =
      reads_length (first_byte frame) masked (body_bytes masked key frame.payload ++ rest)
        (length frame.payload) h in
    rw
      (
        reads_header server options frame (get_or bytes 1 0) s read.0,
        read.1,
        reads_key front key frame.payload rest masked,
      )
      (reads_payload server options frame (bit_and (get_or bytes 1 0) 0x7F) front key rest s)
parse_whole client options frame key rest s h =
    let front = first_byte frame ∷ length_bytes unmasked (length frame.payload) in
    let bytes = whole front key frame.payload rest unmasked in
    let read =
      reads_length (first_byte frame) unmasked (body_bytes unmasked key frame.payload ++ rest)
        (length frame.payload) h in
    rw
      (
        reads_header client options frame (get_or bytes 1 0) s read.0,
        read.1,
        reads_key front key frame.payload rest unmasked,
      )
      (reads_payload client options frame (bit_and (get_or bytes 1 0) 0x7F) front key rest s)

-- A permitted frame with a payload below 2 ^ 63 bytes, encoded for the parser's role (masked
-- towards a server, unmasked towards a client, under any key), is taken off the front of the unread
-- bytes whatever follows it, as the same frame, and with the number of bytes that the encoder wrote
-- for it.
pub parse_frame-encode :
    (role : Role) (options : Options) (frame : Frame) (mask_key : Option MaskKey)
    (random_key : MaskKey) (rest : Bytes)
    → IsPermitted options frame
    → length frame.payload < 2 ^ 63
    → let sent = encode_websocket_frame frame (masking_for role) mask_key random_key in
      parse_frame role options (length (sent ++ rest)) (sent ++ rest) ≡ done (frame, length sent)
unfolding encode_websocket_frame
parse_frame-encode role options frame mask_key random_key rest s h =
    let masking = masking_for role in
    let key = value_or mask_key random_key in
    let mid = length_bytes masking (length frame.payload) in
    let body = body_bytes masking key frame.payload in
    rw (append_assoc mid body rest) (
      parse_whole role options frame key rest s h
      ∙ ap (λ n. done (frame, n))
          (omega (arith, length-append mid body, length-body_bytes masking key frame.payload)))
