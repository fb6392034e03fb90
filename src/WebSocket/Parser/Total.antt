-- ===== src/WebSocket/Parser/Total.antt =====
-- The loop over the buffer always ends, and delivers permitted frames only.
use oklib.Common.{
  ltb, Bool-cases, All, ℕ, zero, suc, ◌≤◌, ◌<◌, ◌≡◌, refl, sym, ◌∙◌, ◌⊎◌, inl, inr, Bool, true,
  false, some, List, [], ◌∷◌, ◌++◌, append-nil, append_assoc, arith,
}
use oklib.Buffer.{readable_bytes, contents, retrieve, Buffer}
use oklib.Buffer.Invariant.{length-contents, retrieve-IsValid, IsValid}
use oklib.Buffer.Contents.{readable-retrieve_lt}
use oklib.WebSocket.{Frame, WebSocketError}
use oklib.WebSocket.Parser.{
  parse_frame, finished, parse_loop, parse, FrameParser, ParseResult, Outcome, need_more, bad, done,
  ParseStatus, error,
}
use oklib.WebSocket.Parser.Permitted.{IsPermitted}
use oklib.WebSocket.Parser.Sound.{parse_frame_sound}

-- What a call of `parse` may add to the frames that it was given.
pub record IsParsed (p : FrameParser) (frames : List Frame) (r : ParseResult) : Type 0 where
  pub new : List Frame
  pub delivered : r.frames ≡ frames ++ new
  pub permitted : All (IsPermitted p.options) new
  pub valid : IsValid r.buffer
  pub same_role : r.parser.role ≡ p.role
  pub same_options : r.parser.options ≡ p.options

Outcome-cases {ℓ} :
    {A : Type ℓ} (o : Outcome A)
    → (o ≡ need_more) ⊎ ((e : WebSocketError) × (o ≡ bad e)) ⊎ ((a : A) × (o ≡ done a))
Outcome-cases need_more = inl refl
Outcome-cases (bad e) = inr (inl (e, refl))
Outcome-cases (done a) = inr (inr (a, refl))

nothing_new :
    (p q : FrameParser) (b : Buffer) (frames : List Frame) (s : ParseStatus)
    → IsValid b
    → q.role ≡ p.role
    → q.options ≡ p.options
    → IsParsed p frames (record { status = s; parser = q; buffer = b; frames = frames })
nothing_new p q b frames s v r o = record {
  new = [];
  delivered = sym (append-nil frames);
  permitted = tt;
  valid = v;
  same_role = r;
  same_options = o;
}

one_more :
    (p : FrameParser) (frame : Frame) (frames : List Frame) (r : ParseResult)
    → IsPermitted p.options frame
    → IsParsed p (frames ++ (frame ∷ [])) r
    → IsParsed p frames r
one_more p frame frames r ok h = record {
  new = frame ∷ h.new;
  delivered = h.delivered ∙ append_assoc frames (frame ∷ []) h.new;
  permitted = (ok, h.permitted);
  valid = h.valid;
  same_role = h.same_role;
  same_options = h.same_options;
}

-- With the unread bytes in place of the count that the code keeps.
frame_sound :
    (p : FrameParser) (b : Buffer) (frame : Frame) (taken : ℕ)
    → IsValid b
    → 2 ≤ readable_bytes b
    → parse_frame p.role p.options (readable_bytes b) (contents b) ≡ done (frame, taken)
    → IsPermitted p.options frame × (2 ≤ taken) × (taken ≤ readable_bytes b)
frame_sound p b frame taken v h e =
    let size = length-contents b v in
    let s = parse_frame_sound p.role p.options (contents b) frame taken (omega arith) (rw size e) in
    (s.0, s.2, omega arith)

abbrev pub stopped : FrameParser → Buffer → List Frame → ParseStatus → ParseResult
stopped p b frames s = record { status = s; parser = p; buffer = b; frames = frames }

loop_total :
    (fuel : ℕ) (p : FrameParser) (b : Buffer) (frames : List Frame) (parsed_any : Bool)
    → IsValid b
    → readable_bytes b < fuel
    → (r : ParseResult) × (parse_loop fuel p b frames parsed_any ≡ some r) × IsParsed p frames r
unfolding parse_loop
loop_total zero p b frames parsed_any v h = absurd (omega arith)
loop_total (suc fuel) p b frames parsed_any v h = elim (Bool-cases (ltb (readable_bytes b) 2)) [
  | inl few ↦ (
    stopped p b frames (finished parsed_any),
    rw (few, parse_loop),
    nothing_new p p b frames (finished parsed_any) v refl refl,
  )
  | inr enough ↦
      elim (Outcome-cases (parse_frame p.role p.options (readable_bytes b) (contents b))) [
        | inl more ↦ (
          stopped p b frames (finished parsed_any),
          rw (enough, more, parse_loop),
          nothing_new p p b frames (finished parsed_any) v refl refl,
        )
        | inr (inl (e, wrong)) ↦ (
          stopped (record p { last_error = e }) b frames error,
          rw (enough, wrong, parse_loop),
          nothing_new p (record p { last_error = e }) b frames error v refl refl,
        )
        | inr (inr ((frame, n), ok)) ↦
            let s = frame_sound p b frame n v (ground arith) ok in
            let (r, run, parsed) =
              loop_total fuel p (retrieve n b) (frames ++ (frame ∷ [])) true
                (retrieve-IsValid n b v) (readable-retrieve_lt n b fuel v s.1 (ground arith) h) in
            (r, rw (enough, ok, parse_loop) run, one_more p frame frames r s.0 parsed)
      ]
]

-- On a valid buffer `parse` ends, whatever bytes are in it. It delivers the frames that it was
-- given and, behind them, frames that are permitted under the options; the buffer stays valid, and
-- the parser keeps its role and options.
pub parse_total :
    (p : FrameParser) (b : Buffer) (frames : List Frame)
    → IsValid b
    → (r : ParseResult) × (parse p b frames ≡ some r) × IsParsed p frames r
unfolding parse
parse_total p b frames v = loop_total (suc (readable_bytes b)) p b frames false v (omega arith)
