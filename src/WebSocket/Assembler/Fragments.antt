-- ===== src/WebSocket/Assembler/Fragments.antt =====
-- A message in fragments is delivered as the message in one frame.
use oklib.Common.{
  length, All, length-append, Bytes, ◌≤◌, ◌≡◌, refl, sym, ap, ◌∙◌, ◌≢◌, ◌⊎◌, inl, inr, Bool, true,
  false, none, List, [], ◌∷◌, ◌++◌, append_assoc, arith,
}
use oklib.WebSocket.{
  is_control_opcode, is_data_opcode, Options, Frame, Opcode, continuation, ping, pong, no_error,
}
use oklib.WebSocket.Assembler.{
  new_assembler, consume_control, consume_data, deliver, consume_continuation, consume, Collected,
  in_front, collect, consume_all, Assembler, Consumed, MessageStatus, incomplete, control, error,
}

-- No message is under way.
abbrev pub IsIdle : Assembler → Type 0
IsIdle a = a.fragmented_active ≡ false

-- A fragment behind the first: with it, the number of control frames in front of it.
pub record Fragment : Type 0 where
  pub control_frames : List Frame
  pub payload : Bytes

abbrev pub continuation_frame : Bool → Bytes → Frame
continuation_frame fin payload = record {
  fin = fin;
  rsv1 = false;
  rsv2 = false;
  rsv3 = false;
  opcode = continuation;
  payload = payload;
}

abbrev pub data_frame : Opcode → Bool → Bool → Bytes → Frame
data_frame opcode compressed fin payload = record {
  fin = fin;
  rsv1 = compressed;
  rsv2 = false;
  rsv3 = false;
  opcode = opcode;
  payload = payload;
}

-- The frames of the fragments behind the first, the last of them with the FIN bit.
unfoldable pub later_frames : List Fragment → Fragment → List Frame
later_frames [] last = last.control_frames ++ (continuation_frame true last.payload ∷ [])
later_frames (f ∷ fs) last =
    f.control_frames ++ (continuation_frame false f.payload ∷ later_frames fs last)

unfoldable pub joined : List Fragment → Fragment → Bytes
joined [] last = last.payload
joined (f ∷ fs) last = f.payload ++ joined fs last

abbrev pub IsPingPong : Frame → Type 0
IsPingPong frame = (frame.opcode ≡ ping) ⊎ (frame.opcode ≡ pong)

abbrev pub HasPingPongs : Fragment → Type 0
HasPingPongs f = All IsPingPong f.control_frames

consume_ping_pong :
    (a : Assembler) (frame : Frame)
    → IsPingPong frame
    → consume a frame ≡ record { status = control; assembler = a; message = none }
unfolding consume consume_control is_control_opcode
consume_ping_pong a frame (inl e) = ground arith
consume_ping_pong a frame (inr e) = ground arith

abbrev quiet : MessageStatus → Assembler → Consumed
quiet s a = record { status = s; assembler = a; message = none }

in_front-none : (o : Collected) → in_front none o ≡ o
in_front-none (inl e) = refl
in_front-none (inr r) = refl

-- A call that writes no message and reports no error is not seen in the result.
collect-quiet :
    (s : MessageStatus) (a : Assembler) (later : Assembler → Collected)
    → s ≢ error
    → collect (quiet s a) later ≡ later a
collect-quiet s a later h = ground (arith, in_front-none (later a))

controls_pass :
    (a : Assembler) (controls more : List Frame)
    → All IsPingPong controls
    → consume_all a (controls ++ more) ≡ consume_all a more
unfolding consume_all
controls_pass a [] more h = refl
controls_pass a (c ∷ cs) more h =
    ap (λ r. collect r (λ b. consume_all b (cs ++ more))) (consume_ping_pong a c h.0)
    ∙ collect-quiet control a (λ b. consume_all b (cs ++ more)) (λ e. cc)
    ∙ controls_pass a cs more h.1

-- The assembler with the payload of the fragments so far.
abbrev holding : Assembler → Bytes → Assembler
holding a payload = record a { fragmented_payload = payload }

consume_middle :
    (a : Assembler) (so_far payload : Bytes)
    → a.fragmented_active ≡ true
    → length (so_far ++ payload) ≤ a.options.max_message_payload
    → consume (holding a so_far) (continuation_frame false payload)
      ≡ quiet incomplete (holding a (so_far ++ payload))
unfolding consume consume_continuation is_control_opcode is_data_opcode
consume_middle a so_far payload h k = ground (arith, length-append so_far payload)

consume_last :
    (a : Assembler) (so_far payload : Bytes)
    → a.fragmented_active ≡ true
    → length (so_far ++ payload) ≤ a.options.max_message_payload
    → consume (holding a so_far) (continuation_frame true payload)
      ≡ deliver (holding a (so_far ++ payload))
unfolding consume consume_continuation is_control_opcode is_data_opcode
consume_last a so_far payload h k = ground (arith, length-append so_far payload)

later_frames_lem :
    (a : Assembler) (so_far : Bytes) (fs : List Fragment) (last : Fragment)
    → a.fragmented_active ≡ true
    → All HasPingPongs fs
    → HasPingPongs last
    → length (so_far ++ joined fs last) ≤ a.options.max_message_payload
    → consume_all (holding a so_far) (later_frames fs last)
      ≡ collect (deliver (holding a (so_far ++ joined fs last))) (λ b. inr ([], b))
unfolding later_frames joined consume_all
later_frames_lem a so_far [] last h p q k =
    controls_pass (holding a so_far) last.control_frames _ q
    ∙ (ap (λ r. collect r (λ b. inr ([], b))) (consume_last a so_far last.payload h k))
later_frames_lem a so_far (f ∷ fs) last h p q k =
    controls_pass (holding a so_far) f.control_frames _ p.0
    ∙ (ap (λ r. collect r (λ b. consume_all b (later_frames fs last)))
        (consume_middle a so_far f.payload h (
          omega (
            arith,
            length-append so_far f.payload,
            length-append so_far (f.payload ++ joined fs last),
            length-append f.payload (joined fs last),
          ))))
    ∙ collect-quiet incomplete (holding a (so_far ++ f.payload))
        (λ b. consume_all b (later_frames fs last)) (λ e. cc)
    ∙ later_frames_lem a (so_far ++ f.payload) fs last h p.1 q
        (rw (append_assoc so_far f.payload (joined fs last)) k)
    ∙ ap (λ t. collect (deliver (holding a t)) (λ b. inr ([], b)))
        (append_assoc so_far f.payload (joined fs last))

-- The assembler of a fresh connection once the first fragment is in.
abbrev started : Options → Opcode → Bool → Bytes → Assembler
started options opcode compressed payload = record {
  options = options;
  fragmented_opcode = opcode;
  fragmented_payload = payload;
  fragmented_compressed = compressed;
  fragmented_active = true;
  last_error = no_error;
}

consume_first :
    (options : Options) (opcode : Opcode) (compressed : Bool) (payload : Bytes)
    → is_data_opcode opcode ≡ true
    → length payload ≤ options.max_message_payload
    → consume (new_assembler options) (data_frame opcode compressed false payload)
      ≡ quiet incomplete (started options opcode compressed payload)
unfolding consume consume_data is_control_opcode is_data_opcode new_assembler
consume_first options opcode compressed payload d h = ground arith

consume_whole :
    (options : Options) (opcode : Opcode) (compressed : Bool) (payload : Bytes)
    → is_data_opcode opcode ≡ true
    → length payload ≤ options.max_message_payload
    → collect
        (consume (new_assembler options) (data_frame opcode compressed true payload))
        (λ b. inr ([], b))
      ≡ collect (deliver (started options opcode compressed payload)) (λ b. inr ([], b))
unfolding consume consume_data is_control_opcode is_data_opcode new_assembler deliver
consume_whole options opcode compressed payload d h = ground arith

-- On a fresh assembler, a text or binary message in any number of fragments, with pings and pongs
-- anywhere between them, has the result of the same message in one frame: the same messages
-- delivered and the same assembler after it, or, where the text is not valid UTF-8, the same error
-- reported. It holds of every payload within the limit of a message.
pub consume_all_fragments :
    (options : Options) (opcode : Opcode) (compressed : Bool) (first : Bytes) (fs : List Fragment)
    (last : Fragment)
    → is_data_opcode opcode ≡ true
    → All HasPingPongs fs
    → HasPingPongs last
    → length (first ++ joined fs last) ≤ options.max_message_payload
    → consume_all
        (new_assembler options)
        (data_frame opcode compressed false first ∷ later_frames fs last)
      ≡ consume_all
          (new_assembler options)
          (data_frame opcode compressed true (first ++ joined fs last) ∷ [])
unfolding consume_all
consume_all_fragments options opcode compressed first fs last d p q h =
    ap (λ r. collect r (λ b. consume_all b (later_frames fs last)))
      (consume_first options opcode compressed first d
        (omega (arith, length-append first (joined fs last))))
    ∙ collect-quiet incomplete (started options opcode compressed first)
        (λ b. consume_all b (later_frames fs last)) (λ e. cc)
    ∙ later_frames_lem (started options opcode compressed first) first fs last refl p q h
    ∙ sym (consume_whole options opcode compressed (first ++ joined fs last) d h)
