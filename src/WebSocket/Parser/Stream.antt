-- ===== src/WebSocket/Parser/Stream.antt =====
-- The loop delivers every frame of a stream of encoded frames.
use oklib.Common.{
  ltb, lt→ltb, le→ltb, length, All, length-append, drop-append_exact, Bytes, ℕ, zero, suc, ◌^◌, ◌<◌,
  ◌≡◌, refl, ap, ap₂, ◌∙◌, Bool, true, false, some, List, [], ◌∷◌, ◌++◌, append-nil, append_assoc,
  arith,
}
use oklib.Buffer.{readable_bytes, contents, retrieve, Buffer}
use oklib.Buffer.Invariant.{length-contents, retrieve-IsValid, IsValid}
use oklib.Buffer.Contents.{contents-retrieve, readable-retrieve}
use oklib.WebSocket.{Options, Frame, MaskKey, Masking}
use oklib.WebSocket.Encoder.{encode_websocket_frame, two-le-encode}
use oklib.WebSocket.Parser.{parse_frame, finished, parse_loop, parse, FrameParser, done, complete}
use oklib.WebSocket.Parser.Permitted.{IsPermitted}
use oklib.WebSocket.Parser.RoundTrip.{masking_for, parse_frame-encode}
use oklib.WebSocket.Parser.Total.{stopped}

-- Frames on the wire, each under a key of its own.
unfoldable pub encode_all : Masking → List (Frame × MaskKey) → Bytes
encode_all masking [] = []
encode_all masking ((frame, key) ∷ more) =
    encode_websocket_frame frame masking (some key) key ++ encode_all masking more

-- One round over an encoded frame.
loop_round :
    (fuel : ℕ) (p : FrameParser) (b : Buffer) (frames : List Frame) (parsed_any : Bool)
    (frame : Frame) (key : MaskKey) (rest : Bytes)
    → IsValid b
    → IsPermitted p.options frame
    → length frame.payload < 2 ^ 63
    → let sent = encode_websocket_frame frame (masking_for p.role) (some key) key in
      contents b ≡ sent ++ rest
      → (parse_loop (suc fuel) p b frames parsed_any
          ≡ parse_loop fuel p (retrieve (length sent) b) (frames ++ (frame ∷ [])) true)
        × (contents (retrieve (length sent) b) ≡ rest)
unfolding parse_loop
loop_round fuel p b frames parsed_any frame key rest v ok h e = (
  rw (enough, parsed, parse_loop),
  contents-retrieve (length sent) b v ∙ (rw e (drop-append_exact (length sent) sent rest refl)),
)
  where
    sent : Bytes
    sent = encode_websocket_frame frame (masking_for p.role) (some key) key

    enough : ltb (readable_bytes b) 2 ≡ false
    enough = le→ltb (readable_bytes b) 2 (
        omega (
          arith,
          length-contents b v,
          ap length e,
          length-append sent rest,
          two-le-encode frame (masking_for p.role) (some key) key,
        ))

    parsed :
        parse_frame p.role p.options (readable_bytes b) (contents b) ≡ done (frame, length sent)
    parsed =
        rw (← length-contents b v, e)
          (parse_frame-encode p.role p.options frame (some key) key rest ok h)

-- Whether the loop has delivered a frame.
abbrev any_sent : Bool → List (Frame × MaskKey) → Bool
any_sent parsed_any [] = parsed_any
any_sent parsed_any (x ∷ xs) = true

-- The frames without their keys.
abbrev pub sent_frames : List (Frame × MaskKey) → List Frame
sent_frames [] = []
sent_frames ((frame, key) ∷ more) = frame ∷ sent_frames more

abbrev pub IsSent : Options → Frame × MaskKey → Type 0
IsSent options (frame, key) = IsPermitted options frame × (length frame.payload < 2 ^ 63)

any_sent-true : (stream : List (Frame × MaskKey)) → any_sent true stream ≡ true
any_sent-true [] = refl
any_sent-true (x ∷ xs) = refl

retrieved_lt :
    (fuel : ℕ) (p : FrameParser) (b : Buffer) (frame : Frame) (key : MaskKey) (rest : Bytes)
    → IsValid b
    → let sent = encode_websocket_frame frame (masking_for p.role) (some key) key in
      contents b ≡ sent ++ rest
      → readable_bytes b < suc fuel
      → readable_bytes (retrieve (length sent) b) < fuel
retrieved_lt fuel p b frame key rest v e h =
    let sent = encode_websocket_frame frame (masking_for p.role) (some key) key in
    omega (
      arith,
      readable-retrieve (length sent) b v,
      length-contents b v,
      ap length e,
      length-append sent rest,
      two-le-encode frame (masking_for p.role) (some key) key,
    )

loop_stream :
    (fuel : ℕ) (p : FrameParser) (b : Buffer) (frames : List Frame) (parsed_any : Bool)
    (stream : List (Frame × MaskKey))
    → IsValid b
    → All (IsSent p.options) stream
    → contents b ≡ encode_all (masking_for p.role) stream
    → readable_bytes b < fuel
    → (b' : Buffer) × (parse_loop fuel p b frames parsed_any
        ≡ some
            (stopped p b' (frames ++ sent_frames stream) (finished (any_sent parsed_any stream))))
      × (contents b' ≡ [])
unfolding encode_all parse_loop
loop_stream zero p b frames parsed_any stream v ok e h = absurd (omega arith)
loop_stream (suc fuel) p b frames parsed_any [] v ok e h = (
  b,
  rw (
    lt→ltb (readable_bytes b) 2 (omega (arith, length-contents b v, ap length e)),
    parse_loop,
    append-nil frames,
  ),
  e,
)
loop_stream (suc fuel) p b frames parsed_any ((frame, key) ∷ stream) v ok e h =
    let sent = encode_websocket_frame frame (masking_for p.role) (some key) key in
    let (round, left) =
      loop_round fuel p b frames parsed_any frame key (encode_all (masking_for p.role) stream) v
        (ok.0).0 (ok.0).1 e in
    let (b', run, empty) =
      loop_stream fuel p (retrieve (length sent) b) (frames ++ (frame ∷ [])) true stream
        (retrieve-IsValid (length sent) b v) ok.1 left (retrieved_lt fuel p b frame key _ v e h) in
    (b', round ∙ run ∙ ap some (regroup b'), empty)
  where
    regroup :
        (b' : Buffer)
        → stopped p b'
            ((frames ++ (frame ∷ [])) ++ sent_frames stream)
            (finished (any_sent true stream))
          ≡ stopped p b' (frames ++ (frame ∷ sent_frames stream)) complete
    regroup b' =
        ap₂ (stopped p b') (append_assoc frames (frame ∷ []) (sent_frames stream))
          (ap finished (any_sent-true stream))

-- When the unread bytes of a valid buffer are encoded frames, permitted and for the parser's role,
-- `parse` delivers exactly those frames, in order and behind the ones that it was given, with the
-- status `complete` if there are any, and leaves no byte unread.
pub parse-encode_all :
    (p : FrameParser) (b : Buffer) (frames : List Frame) (stream : List (Frame × MaskKey))
    → IsValid b
    → All (IsSent p.options) stream
    → contents b ≡ encode_all (masking_for p.role) stream
    → (b' : Buffer) × (parse p b frames
        ≡ some (record {
          status = finished (any_sent false stream);
          parser = p;
          buffer = b';
          frames = frames ++ sent_frames stream;
        }))
      × (contents b' ≡ [])
unfolding parse
parse-encode_all p b frames stream v ok e =
    loop_stream (suc (readable_bytes b)) p b frames false stream v ok e (omega arith)
