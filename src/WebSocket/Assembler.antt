-- ===== src/WebSocket/Assembler.antt =====
-- `WebSocketMessageAssembler` and `valid_close_code` of src/websocket/websocket_frame.cpp.
pub mod Invariant
pub mod Fragments
use oklib.Common.{
  ltb, leb, ◌==◌, if◌then◌else◌, length, get_or, drop, Bytes, ℕ, ◌+◌, ◌*◌, ◌%◌, ◌^◌, bit_or, ◌⊎◌,
  inl, inr, Bool, true, false, not, ◌&&◌, ◌||◌, Option, none, some, List, [], ◌∷◌, ◌++◌,
}
use oklib.WebSocket.{
  is_control_opcode, is_data_opcode, Options, Frame, Opcode, continuation, text, close,
  WebSocketError, no_error, protocol_error, message_too_big, invalid_utf8,
}
use oklib.WebSocket.Utf8.{valid_utf8}

unfoldable pub valid_close_code : ℕ → Bool
valid_close_code code =
    if ltb code 1000
    then false
    else if code == 1004 || code == 1005 || code == 1006
    then false
    else if leb 1016 code && leb code 2999
    then false
    else leb code 4999

pub data MessageStatus : Type 0 where
  incomplete complete control error : MessageStatus

pub record Message : Type 0 where
  pub opcode : Opcode
  pub payload : Bytes
  pub compressed : Bool

pub record Assembler : Type 0 where
  pub options : Options
  pub fragmented_opcode : Opcode
  pub fragmented_payload : Bytes
  pub fragmented_compressed : Bool
  pub fragmented_active : Bool
  pub last_error : WebSocketError

unfoldable pub new_assembler : Options → Assembler
new_assembler options = record {
  options = options;
  fragmented_opcode = continuation;
  fragmented_payload = [];
  fragmented_compressed = false;
  fragmented_active = false;
  last_error = no_error;
}

-- The status, the assembler after the call, and what is written to `*message`, if anything is.
pub record Consumed : Type 0 where
  pub status : MessageStatus
  pub assembler : Assembler
  pub message : Option Message

abbrev pub fail : Assembler → WebSocketError → Consumed
fail a e = record { status = error; assembler = record a { last_error = e }; message = none }

unfoldable pub reset : Assembler → Assembler
reset a = record a {
  fragmented_opcode = continuation;
  fragmented_payload = [];
  fragmented_compressed = false;
  fragmented_active = false;
  last_error = no_error;
}

abbrev pub is_text : Opcode → Bool
is_text text = true
is_text _ = false

abbrev pub is_close : Opcode → Bool
is_close close = true
is_close _ = false

abbrev pub is_continuation : Opcode → Bool
is_continuation continuation = true
is_continuation _ = false

-- The big-endian code in front of a close frame's payload.
unfoldable pub close_code : Bytes → ℕ
close_code payload = bit_or (get_or payload 0 0 * 2 ^ 8) (get_or payload 1 0) % 2 ^ 16

unfoldable pub consume_control : Assembler → Frame → Consumed
consume_control a frame =
    let size = length frame.payload in
    let pass : Consumed = record { status = control; assembler = a; message = none } in
    if is_close frame.opcode && leb 2 size
    then if not (valid_close_code (close_code frame.payload))
      then fail a protocol_error
      else if ltb 2 size && not (valid_utf8 (drop 2 frame.payload))
      then fail a invalid_utf8
      else pass
    else pass

unfoldable pub consume_data : Assembler → Frame → Consumed
consume_data a frame =
    if a.fragmented_active
    then fail a protocol_error
    else if ltb a.options.max_message_payload (length frame.payload)
    then fail a message_too_big
    else if frame.fin
    then if is_text frame.opcode && not frame.rsv1 && not (valid_utf8 frame.payload)
      then fail a invalid_utf8
      else record {
        status = complete;
        assembler = a;
        message =
            some
              (record { opcode = frame.opcode; payload = frame.payload; compressed = frame.rsv1 });
      }
    else record {
      status = incomplete;
      assembler = record a {
        fragmented_active = true;
        fragmented_opcode = frame.opcode;
        fragmented_payload = frame.payload;
        fragmented_compressed = frame.rsv1;
      };
      message = none;
    }

-- The end of the last fragment: `a` holds the whole payload.
unfoldable pub deliver : Assembler → Consumed
unfolding reset
deliver a =
    if is_text a.fragmented_opcode
      && not a.fragmented_compressed
      && not (valid_utf8 a.fragmented_payload)
    then fail a invalid_utf8
    else record {
      status = complete;
      assembler = reset a;
      message = some (record {
        opcode = a.fragmented_opcode;
        payload = a.fragmented_payload;
        compressed = a.fragmented_compressed;
      });
    }

unfoldable pub consume_continuation : Assembler → Frame → Consumed
consume_continuation a frame =
    let payload = a.fragmented_payload ++ frame.payload in
    let longer : Assembler = record a { fragmented_payload = payload } in
    if not (is_continuation frame.opcode) || not a.fragmented_active
    then fail a protocol_error
    else if ltb a.options.max_message_payload (length a.fragmented_payload + length frame.payload)
    then fail a message_too_big
    else if not frame.fin
    then record { status = incomplete; assembler = longer; message = none }
    else deliver longer

unfoldable pub consume : Assembler → Frame → Consumed
consume a frame =
    if is_control_opcode frame.opcode
    then consume_control a frame
    else if is_data_opcode frame.opcode
    then consume_data a frame
    else consume_continuation a frame

-- What a sequence of calls comes to: the error of the call that reports one, or the messages
-- delivered and the assembler after them.
abbrev pub Collected : Type 0
Collected = WebSocketError ⊎ (List Message × Assembler)

abbrev pub in_front : Option Message → Collected → Collected
in_front m (inl e) = inl e
in_front none (inr r) = inr r
in_front (some m) (inr (messages, last)) = inr (m ∷ messages, last)

-- The result of a call in front of that of the later calls, which are not made behind an error.
abbrev pub collect : Consumed → (Assembler → Collected) → Collected
collect r later = elim r.status [
  | error ↦ inl r.assembler.last_error
  | _ ↦ in_front r.message (later r.assembler)
]

-- The calls for a sequence of frames.
unfoldable pub consume_all : Assembler → List Frame → Collected
consume_all a [] = inr ([], a)
consume_all a (frame ∷ more) = collect (consume a frame) (λ b. consume_all b more)
