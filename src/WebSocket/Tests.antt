-- ===== src/WebSocket/Tests.antt =====
-- Runs of the frame code, and the theorems at concrete inputs.
use oklib.Common.{
  length, All, Bytes, codes, ℕ, ◌≤◌, ◌≡◌, refl, sym, ◌∙◌, ◌↔◌, inl, true, false, some, List, [],
  ◌∷◌, ◌++◌, arith,
}
use oklib.Buffer.{
  contents, new_buffer, write_at, make_space, ensure_writable_bytes, has_written, put_bytes, append,
  Buffer,
}
use oklib.Buffer.Invariant.{new_buffer-IsValid, append-IsValid, IsValid}
use oklib.WebSocket.{
  is_control_opcode, is_data_opcode, valid_opcode, apply_mask, Options, Frame, MaskKey, text, ping,
  server, masked, no_error, protocol_error,
}
use oklib.WebSocket.Encoder.{first_byte, length_bytes, body_bytes, encode_websocket_frame}
use oklib.WebSocket.Parser.{
  bit_set, check_header, read_header, read_length, read_key, read_payload, parse_frame, parse,
  FrameParser, ParseResult, bad, done, complete,
}
use oklib.WebSocket.Parser.Permitted.{IsPermitted}
use oklib.WebSocket.Parser.RoundTrip.{parse_frame-encode}
use oklib.WebSocket.Parser.Sound.{parse_frame_sound}
use oklib.WebSocket.Parser.Total.{parse_total, IsParsed}
use oklib.WebSocket.Parser.Stream.{encode_all, parse-encode_all}
use oklib.WebSocket.Utf8.{lead, scan_byte, scan, valid_utf8, IsScalar, utf8}
use oklib.WebSocket.Utf8.Sound.{valid_utf8_iff}
use oklib.WebSocket.Assembler.Invariant.{new_assembler-IsSound, Keeps, consume-Keeps}
use oklib.WebSocket.Assembler.Fragments.{
  data_frame, later_frames, joined, consume_all_fragments, Fragment,
}
use oklib.WebSocket.Assembler

abbrev options : Options
options = record {
  max_frame_payload = 1000;
  max_message_payload = 2000;
  enable_compression = false;
}

abbrev key : MaskKey
key = record { byte0 = 0x37; byte1 = 0xfa; byte2 = 0x21; byte3 = 0x3d }

abbrev hello : Frame
hello = record {
  fin = true;
  rsv1 = false;
  rsv2 = false;
  rsv3 = false;
  opcode = text;
  payload = codes "Hello";
}

-- The masked "Hello" of RFC 6455, section 5.7.
abbrev hello_wire : Bytes
hello_wire = 0x81 ∷ 0x85 ∷ 0x37 ∷ 0xfa ∷ 0x21 ∷ 0x3d ∷ 0x7f ∷ 0x9f ∷ 0x4d ∷ 0x51 ∷ 0x58 ∷ []

encode_hello : encode_websocket_frame hello masked (some key) key ≡ hello_wire
unfolding encode_websocket_frame first_byte length_bytes body_bytes apply_mask
encode_hello = refl

parse_hello : parse_frame server options 11 hello_wire ≡ done (hello, 11)
unfolding parse_frame read_header valid_opcode check_header read_length read_key read_payload
    is_control_opcode is_data_opcode apply_mask
parse_hello = refl

-- A client's frame has to be masked.
parse_unmasked : parse_frame server options 2 (0x81 ∷ 0x00 ∷ []) ≡ bad protocol_error
unfolding parse_frame read_header valid_opcode check_header
parse_unmasked = refl

hello-IsPermitted : IsPermitted options hello
unfolding is_control_opcode
hello-IsPermitted = ground arith

hello_buffer : Buffer
hello_buffer = append hello_wire (new_buffer 16)

hello_buffer-IsValid : IsValid hello_buffer
unfolding hello_buffer
hello_buffer-IsValid = append-IsValid hello_wire (new_buffer 16) (new_buffer-IsValid 16)

hello_buffer-contents : contents hello_buffer ≡ hello_wire
unfolding hello_buffer append put_bytes has_written write_at ensure_writable_bytes make_space
    contents new_buffer
hello_buffer-contents = refl

abbrev server_parser : FrameParser
server_parser = record { role = server; options = options; last_error = no_error }

abbrev stream : List (Frame × MaskKey)
stream = (hello, key) ∷ []

stream_on_wire : encode_all masked stream ≡ hello_wire
unfolding encode_all
stream_on_wire = rw encode_hello

parse_frame-encode_example :
    parse_frame server options
      (length (encode_websocket_frame hello masked (some key) key ++ (0x81 ∷ [])))
      (encode_websocket_frame hello masked (some key) key ++ (0x81 ∷ []))
    ≡ done (hello, length (encode_websocket_frame hello masked (some key) key))
parse_frame-encode_example =
    parse_frame-encode server options hello (some key) key (0x81 ∷ []) hello-IsPermitted
      (omega arith)

parse-encode_all_example :
    (b' : Buffer) × (parse server_parser hello_buffer []
      ≡ some
          (record { status = complete; parser = server_parser; buffer = b'; frames = hello ∷ [] }))
    × (contents b' ≡ [])
parse-encode_all_example =
    parse-encode_all server_parser hello_buffer [] stream hello_buffer-IsValid
      ((hello-IsPermitted, omega arith), tt) (hello_buffer-contents ∙ sym stream_on_wire)

parse_total_example :
    (r : ParseResult) × (parse server_parser hello_buffer [] ≡ some r) × IsParsed server_parser [] r
parse_total_example = parse_total server_parser hello_buffer [] hello_buffer-IsValid

parse_frame_sound_example :
    IsPermitted options hello × (bit_set 0x85 0x80 ≡ true) × (2 ≤ 11) × (11 ≤ length hello_wire)
parse_frame_sound_example =
    parse_frame_sound server options hello_wire hello 11 (omega arith) parse_hello

valid_utf8_iff_example :
    (valid_utf8 (0xE2 ∷ 0x82 ∷ 0xAC ∷ []) ≡ true)
    ↔ ((cps : List ℕ) × All IsScalar cps × ((0xE2 ∷ 0x82 ∷ 0xAC ∷ []) ≡ utf8 cps))
valid_utf8_iff_example = valid_utf8_iff (0xE2 ∷ 0x82 ∷ 0xAC ∷ []) (omega arith)

overlong_rejected : valid_utf8 (0xC0 ∷ 0x80 ∷ []) ≡ false
unfolding valid_utf8 scan scan_byte lead
overlong_rejected = refl

consume-Keeps_example :
    Keeps
      (Assembler.new_assembler options)
      (Assembler.consume (Assembler.new_assembler options) hello)
consume-Keeps_example =
    consume-Keeps (Assembler.new_assembler options) hello (new_assembler-IsSound options)

abbrev ping_frame : Frame
ping_frame = record hello { opcode = ping; payload = [] }

abbrev last_part : Fragment
last_part = record { control_frames = ping_frame ∷ []; payload = codes "lo" }

consume_all_fragments_example :
    Assembler.consume_all
      (Assembler.new_assembler options)
      (data_frame text false false (codes "Hel") ∷ later_frames [] last_part)
    ≡ Assembler.consume_all
        (Assembler.new_assembler options)
        (data_frame text false true (codes "Hel" ++ joined [] last_part) ∷ [])
unfolding joined is_data_opcode
consume_all_fragments_example =
    consume_all_fragments options text false (codes "Hel") [] last_part refl tt (inl refl, tt)
      (omega arith)
