-- ===== src/WebSocket/Assembler/Invariant.antt =====
-- What holds of the assembler between calls, and of every message that it delivers.
use oklib.Common.{
  Bool-cases, length, length-append, ◌≤◌, ◌≡◌, inl, inr, true, false, Option, none, some, [], arith,
}
use oklib.WebSocket.{is_control_opcode, is_data_opcode, Options, Frame, text}
use oklib.WebSocket.Utf8.{valid_utf8}
use oklib.WebSocket.Assembler.{
  new_assembler, consume_control, consume_data, deliver, consume_continuation, consume, Message,
  Assembler, Consumed,
}

-- A message under way is a text or a binary one, and within the limit; else nothing is kept.
pub record IsSound (a : Assembler) : Type 0 where
  pub within : length a.fragmented_payload ≤ a.options.max_message_payload
  pub data_opcode : a.fragmented_active ≡ true → is_data_opcode a.fragmented_opcode ≡ true
  pub idle_empty : a.fragmented_active ≡ false → a.fragmented_payload ≡ []

-- A message that may reach the application.
pub record IsDeliverable (options : Options) (m : Message) : Type 0 where
  pub small : length m.payload ≤ options.max_message_payload
  pub kind : is_data_opcode m.opcode ≡ true
  pub well_encoded : m.opcode ≡ text → m.compressed ≡ false → valid_utf8 m.payload ≡ true

abbrev pub Delivers : Options → Option Message → Type 0
Delivers options none = Unit
Delivers options (some m) = IsDeliverable options m

pub new_assembler-IsSound : (options : Options) → IsSound (new_assembler options)
unfolding new_assembler
new_assembler-IsSound options = ground arith

consume_control-IsSound :
    (a : Assembler) (frame : Frame) → IsSound a → IsSound (consume_control a frame).assembler
unfolding consume_control
consume_control-IsSound a frame s = ground arith

consume_data-IsSound :
    (a : Assembler) (frame : Frame)
    → is_data_opcode frame.opcode ≡ true
    → IsSound a
    → IsSound (consume_data a frame).assembler
unfolding consume_data
consume_data-IsSound a frame d s = ground arith

consume_continuation-IsSound :
    (a : Assembler) (frame : Frame) → IsSound a → IsSound (consume_continuation a frame).assembler
unfolding consume_continuation deliver
consume_continuation-IsSound a frame s =
    ground (arith, length-append a.fragmented_payload frame.payload)

consume_control-Delivers :
    (a : Assembler) (frame : Frame) → Delivers a.options (consume_control a frame).message
unfolding consume_control
consume_control-Delivers a frame = ground arith

consume_data-Delivers :
    (a : Assembler) (frame : Frame)
    → is_data_opcode frame.opcode ≡ true
    → Delivers a.options (consume_data a frame).message
unfolding consume_data
consume_data-Delivers a frame d = ground arith

consume_continuation-Delivers :
    (a : Assembler) (frame : Frame)
    → IsSound a
    → Delivers a.options (consume_continuation a frame).message
unfolding consume_continuation deliver
consume_continuation-Delivers a frame s =
    ground (arith, length-append a.fragmented_payload frame.payload)

consume_control-options :
    (a : Assembler) (frame : Frame) → (consume_control a frame).assembler.options ≡ a.options
unfolding consume_control
consume_control-options a frame = ground arith

consume_data-options :
    (a : Assembler) (frame : Frame) → (consume_data a frame).assembler.options ≡ a.options
unfolding consume_data
consume_data-options a frame = ground arith

consume_continuation-options :
    (a : Assembler) (frame : Frame) → (consume_continuation a frame).assembler.options ≡ a.options
unfolding consume_continuation deliver
consume_continuation-options a frame = ground arith

-- What a call on `a` may result in.
abbrev pub Keeps : Assembler → Consumed → Type 0
Keeps a r = IsSound r.assembler × (r.assembler.options ≡ a.options) × Delivers a.options r.message

-- Any call keeps a sound assembler sound, keeps its options, and writes a message only if that
-- message is within the limit, is a text or a binary one, and, where it is a text that is not
-- compressed, is valid UTF-8.
pub consume-Keeps : (a : Assembler) (frame : Frame) → IsSound a → Keeps a (consume a frame)
unfolding consume
consume-Keeps a frame s = elim (Bool-cases (is_control_opcode frame.opcode)) [
  | inl c ↦ rw c (
    consume_control-IsSound a frame s,
    consume_control-options a frame,
    consume_control-Delivers a frame,
  )
  | inr not_control ↦ elim (Bool-cases (is_data_opcode frame.opcode)) [
    | inl d ↦
        rw (not_control, d)
          (
            consume_data-IsSound a frame d s,
            consume_data-options a frame,
            consume_data-Delivers a frame d,
          )
    | inr not_data ↦
        rw (not_control, not_data)
          (
            consume_continuation-IsSound a frame s,
            consume_continuation-options a frame,
            consume_continuation-Delivers a frame s,
          )
  ]
]
