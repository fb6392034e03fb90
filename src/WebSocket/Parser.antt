-- ===== src/WebSocket/Parser.antt =====
-- `WebSocketFrameParser`: one round of its loop takes one frame off the buffer.
pub mod Permitted
pub mod Encoded
pub mod RoundTrip
pub mod Sound
pub mod Total
pub mod Stream
use oklib.Common.{
  ltb, ◌==◌, if◌then◌else◌, get_or, take, drop, Bytes, ℕ, zero, suc, ◌+◌, ◌-◌, ◌^◌, bit_and, ◌≡◌,
  refl, Bool, true, false, not, ◌&&◌, ◌||◌, Option, none, some, List, [], ◌∷◌, ◌++◌,
}
use oklib.Buffer.{readable_bytes, contents, retrieve, Buffer}
use oklib.WebSocket.{
  is_control_opcode, is_data_opcode, valid_opcode, apply_mask, Options, Frame, MaskKey, Opcode,
  Role, client, server, WebSocketError, protocol_error, message_too_big,
}
use oklib.WebSocket.Wire.{read_u16, read_u64}

-- How a round can end early: too few bytes, or an error. `done` goes on.
pub data Outcome {ℓ} (A : Type ℓ) : Type ℓ where
  need_more : Outcome A
  bad : WebSocketError → Outcome A
  done : A → Outcome A

infixl 5 ◌>>=◌
abbrev pub ◌>>=◌ {ℓ κ} : {A : Type ℓ} {B : Type κ} → Outcome A → (A → Outcome B) → Outcome B
need_more >>= f = need_more
bad e >>= f = bad e
done a >>= f = f a

-- A chain that is done has every step done.
pub >>=-eq-done {ℓ κ} :
    {A : Type ℓ} {B : Type κ} (m : Outcome A) (f : A → Outcome B) {b : B}
    → m >>= f ≡ done b
    → (a : A) × (m ≡ done a) × (f a ≡ done b)
>>=-eq-done need_more f h = cc
>>=-eq-done (bad e) f h = cc
>>=-eq-done (done a) f h = (a, refl, h)

abbrev pub bit_set : ℕ → ℕ → Bool
bit_set byte bit = not (bit_and byte bit == 0)

abbrev pub expected_mask : Role → Bool
expected_mask server = true
expected_mask client = false

abbrev same : Bool → Bool → Bool
same true b = b
same false b = not b

-- What the first two bytes say.
pub record FrameHead : Type 0 where
  pub fin : Bool
  pub rsv1 : Bool
  pub rsv2 : Bool
  pub rsv3 : Bool
  pub opcode : Opcode
  pub masked : Bool
  pub len7 : ℕ

unfoldable pub check_header : Role → Options → FrameHead → Outcome FrameHead
check_header role options h =
    if not (same h.masked (expected_mask role))
    then bad protocol_error
    else if (h.rsv1 && not options.enable_compression) || h.rsv2 || h.rsv3
    then bad protocol_error
    else if h.rsv1 && not (is_data_opcode h.opcode)
    then bad protocol_error
    else done h

unfoldable pub read_header : Role → Options → ℕ → ℕ → Outcome FrameHead
read_header role options byte0 byte1 = elim (valid_opcode (bit_and byte0 0x0F)) [
  | none ↦ bad protocol_error
  | some opcode ↦ check_header role options (record {
    fin = bit_set byte0 0x80;
    rsv1 = bit_set byte0 0x40;
    rsv2 = bit_set byte0 0x20;
    rsv3 = bit_set byte0 0x10;
    opcode = opcode;
    masked = bit_set byte1 0x80;
    len7 = bit_and byte1 0x7F;
  })
]

-- A length has to use the shortest form, and the top bit of a 64-bit one is 0.
abbrev pub check_u16 : ℕ → Outcome (ℕ × ℕ)
check_u16 len = if ltb len 126 then bad protocol_error else done (len, 4)

abbrev pub check_u64 : ℕ → Outcome (ℕ × ℕ)
check_u64 len = if ltb len 65536 || bit_set len (2 ^ 63) then bad protocol_error else done (len, 10)

-- The payload's length and the header's length up to it.
unfoldable pub read_length : ℕ → ℕ → Bytes → Outcome (ℕ × ℕ)
read_length len7 readable bytes =
    if len7 == 126
    then if ltb readable 4 then need_more else check_u16 (read_u16 (drop 2 bytes))
    else if len7 == 127
    then if ltb readable 10 then need_more else check_u64 (read_u64 (drop 2 bytes))
    else done (len7, 2)

abbrev pub zero_key : MaskKey
zero_key = record { byte0 = 0; byte1 = 0; byte2 = 0; byte3 = 0 }

-- The key and the length of the whole header.
unfoldable pub read_key : Bool → ℕ → Bytes → ℕ → Outcome (MaskKey × ℕ)
read_key false readable bytes header_len = done (zero_key, header_len)
read_key true readable bytes header_len =
    let at = drop header_len bytes in
    if ltb readable (header_len + 4)
    then need_more
    else done (
      record {
        byte0 = get_or at 0 0;
        byte1 = get_or at 1 0;
        byte2 = get_or at 2 0;
        byte3 = get_or at 3 0;
      },
      header_len + 4,
    )

abbrev pub unmask : Bool → MaskKey → Bytes → Bytes
unmask true key bytes = apply_mask key 0 bytes
unmask false key bytes = bytes

-- The checks on the payload, and the frame with the bytes to retrieve.
unfoldable pub read_payload :
    Options → FrameHead → ℕ → Bytes → ℕ → MaskKey × ℕ → Outcome (Frame × ℕ)
read_payload options h readable bytes len (key, header_len) =
    if ltb options.max_frame_payload len
    then bad message_too_big
    else if ltb (readable - header_len) len
    then need_more
    else if is_control_opcode h.opcode && (not h.fin || ltb 125 len)
    then bad protocol_error
    else done (
      record {
        fin = h.fin;
        rsv1 = h.rsv1;
        rsv2 = h.rsv2;
        rsv3 = h.rsv3;
        opcode = h.opcode;
        payload = unmask h.masked key (take len (drop header_len bytes));
      },
      header_len + len,
    )

-- One round of the loop, on the unread bytes, two at least.
unfoldable pub parse_frame : Role → Options → ℕ → Bytes → Outcome (Frame × ℕ)
parse_frame role options readable bytes = do
  h ← read_header role options (get_or bytes 0 0) (get_or bytes 1 0)
  (len, header_len) ← read_length h.len7 readable bytes
  key ← read_key h.masked readable bytes header_len
  read_payload options h readable bytes len key

pub data ParseStatus : Type 0 where
  incomplete complete error : ParseStatus

pub record FrameParser : Type 0 where
  pub role : Role
  pub options : Options
  pub last_error : WebSocketError

pub record ParseResult : Type 0 where
  pub status : ParseStatus
  pub parser : FrameParser
  pub buffer : Buffer
  pub frames : List Frame

abbrev pub finished : Bool → ParseStatus
finished true = complete
finished false = incomplete

-- The loop. `none` says that the fuel ran out.
unfoldable pub parse_loop : ℕ → FrameParser → Buffer → List Frame → Bool → Option ParseResult
parse_loop zero p b frames parsed_any = none
parse_loop (suc fuel) p b frames parsed_any =
    let stop : ParseResult = record {
      status = finished parsed_any;
      parser = p;
      buffer = b;
      frames = frames;
    } in
    elim (ltb (readable_bytes b) 2) [
      | true ↦ some stop
      | false ↦ elim (parse_frame p.role p.options (readable_bytes b) (contents b)) [
        | need_more ↦ some stop
        | bad e ↦ some (record stop { status = error; parser = record p { last_error = e } })
        | done (frame, n) ↦ parse_loop fuel p (retrieve n b) (frames ++ (frame ∷ [])) true
      ]
    ]

-- A round takes two bytes at least, so one round more than there are bytes is enough.
unfoldable pub parse : FrameParser → Buffer → List Frame → Option ParseResult
parse p b frames = parse_loop (suc (readable_bytes b)) p b frames false
