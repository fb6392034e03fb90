-- ===== src/WebSocket/Parser/Sound.antt =====
-- Whatever a round accepts is permitted, and it takes two bytes at least and none that is not
-- there.
use oklib.Common.{
  length, get_or, take, drop, length-take, length-drop, Bytes, ℕ, ◌+◌, ◌-◌, ◌≤◌, ◌≡◌, refl, Bool,
  true, false, arith,
}
use oklib.WebSocket.{
  is_control_opcode, is_data_opcode, length-apply_mask, Options, Frame, MaskKey, Role,
}
use oklib.WebSocket.Parser.{
  >>=-eq-done, bit_set, expected_mask, check_header, read_header, read_length, read_key, unmask,
  read_payload, parse_frame, FrameHead, done,
}
use oklib.WebSocket.Parser.Permitted.{IsPermitted}

read_header_sound :
    (role : Role) (options : Options) (byte0 byte1 : ℕ) (h : FrameHead)
    → read_header role options byte0 byte1 ≡ done h
    → (bit_set byte1 0x80 ≡ expected_mask role)
      × (h.rsv2 ≡ false)
      × (h.rsv3 ≡ false)
      × (h.rsv1 ≡ true → (options.enable_compression ≡ true) × (is_data_opcode h.opcode ≡ true))
unfolding read_header check_header
read_header_sound role options byte0 byte1 h e = ground arith

read_length_sound :
    (len7 readable : ℕ) (bytes : Bytes) (len header_len : ℕ)
    → 2 ≤ readable
    → read_length len7 readable bytes ≡ done (len, header_len)
    → (2 ≤ header_len) × (header_len ≤ readable)
unfolding read_length
read_length_sound len7 readable bytes len header_len h e = ground arith

read_key_sound :
    (masked : Bool) (readable : ℕ) (bytes : Bytes) (n : ℕ) (key : MaskKey) (header_len : ℕ)
    → n ≤ readable
    → read_key masked readable bytes n ≡ done (key, header_len)
    → (n ≤ header_len) × (header_len ≤ readable)
unfolding read_key
read_key_sound true readable bytes n key header_len h e = ground arith
read_key_sound false readable bytes n key header_len h e = ground arith

length-unmask :
    (masked : Bool) (key : MaskKey) (bytes : Bytes)
    → length (unmask masked key bytes) ≡ length bytes
length-unmask true key bytes = length-apply_mask key 0 bytes
length-unmask false key bytes = refl

length-slice :
    (len n : ℕ) (bytes : Bytes) → len ≤ length bytes - n → length (take len (drop n bytes)) ≡ len
length-slice len n bytes h = omega (arith, length-take len (drop n bytes), length-drop n bytes)

read_payload_sound :
    (options : Options) (h : FrameHead) (bytes : Bytes) (len : ℕ) (key : MaskKey) (n : ℕ)
    (frame : Frame) (taken : ℕ)
    → n ≤ length bytes
    → read_payload options h (length bytes) bytes len (key, n) ≡ done (frame, taken)
    → (taken ≡ n + len)
      × (taken ≤ length bytes)
      × (length frame.payload ≡ len)
      × (len ≤ options.max_frame_payload)
      × (is_control_opcode frame.opcode ≡ true → (frame.fin ≡ true) × (len ≤ 125))
      × (frame.rsv1 ≡ h.rsv1)
      × (frame.rsv2 ≡ h.rsv2)
      × (frame.rsv3 ≡ h.rsv3)
      × (frame.opcode ≡ h.opcode)
unfolding read_payload
read_payload_sound options h bytes len key n frame taken k e =
    ground (arith, length-unmask h.masked key (take len (drop n bytes)), length-slice len n bytes)

-- The four steps together.
steps_sound :
    (role : Role) (options : Options) (bytes : Bytes) (frame : Frame) (taken : ℕ) (h : FrameHead)
    (len n : ℕ) (key : MaskKey) (header_len : ℕ)
    → 2 ≤ length bytes
    → read_header role options (get_or bytes 0 0) (get_or bytes 1 0) ≡ done h
    → read_length h.len7 (length bytes) bytes ≡ done (len, n)
    → read_key h.masked (length bytes) bytes n ≡ done (key, header_len)
    → read_payload options h (length bytes) bytes len (key, header_len) ≡ done (frame, taken)
    → IsPermitted options frame
      × (bit_set (get_or bytes 1 0) 0x80 ≡ expected_mask role)
      × (2 ≤ taken)
      × (taken ≤ length bytes)
steps_sound role options bytes frame taken h len n key header_len two a b c d =
    let head = read_header_sound role options (get_or bytes 0 0) (get_or bytes 1 0) h a in
    let before = read_length_sound h.len7 (length bytes) bytes len n two b in
    let keyed = read_key_sound h.masked (length bytes) bytes n key header_len before.1 c in
    let body = read_payload_sound options h bytes len key header_len frame taken keyed.1 d in
    (
      record {
        within = ground arith;
        control_short = ground arith;
        no_rsv2 = ground arith;
        no_rsv3 = ground arith;
        rsv1_means_compressed = ground arith;
      },
      head.0,
      omega arith,
      body.1,
    )

-- A frame that a round takes off the unread bytes is permitted under the options, carries the mask
-- bit that the role expects, and takes at least two of the unread bytes and no more than there are.
pub parse_frame_sound :
    (role : Role) (options : Options) (bytes : Bytes) (frame : Frame) (taken : ℕ)
    → 2 ≤ length bytes
    → parse_frame role options (length bytes) bytes ≡ done (frame, taken)
    → IsPermitted options frame
      × (bit_set (get_or bytes 1 0) 0x80 ≡ expected_mask role)
      × (2 ≤ taken)
      × (taken ≤ length bytes)
unfolding parse_frame
parse_frame_sound role options bytes frame taken h e =
    let a = >>=-eq-done (read_header role options (get_or bytes 0 0) (get_or bytes 1 0)) _ e in
    let b = >>=-eq-done (read_length (a.0).len7 (length bytes) bytes) _ a.2 in
    let c = >>=-eq-done (read_key (a.0).masked (length bytes) bytes (b.0).1) _ b.2 in
    steps_sound role options bytes frame taken a.0 (b.0).0 (b.0).1 (c.0).0 (c.0).1 h a.1 b.1 c.1 c.2
