-- ===== src/Http/Multipart/Streaming/Calls.antt =====
-- Any calls of the streaming parser.
use oklib.Http.Text.{is_empty}
use oklib.Common.{
  length, Bytes, ◌≤◌, ◌≡◌, refl, sym, ap, subst, ◌∙◌, ◌⊎◌, inl, inr, Bool, true, false, Option,
  none, some, List, [], ◌∷◌, ◌++◌, arith,
}
use oklib.Http.Multipart.Streaming.{
  gives, new_streaming_parser, behind_events, process, append_data, finish_processed, finish_stream,
  StreamingOptions, StreamingParser, Processing, StreamingState, first_boundary, in_headers,
  in_body, boundary_suffix, done, in_error,
}
use oklib.Http.Multipart.Streaming.Ends.{
  after, is_done, Sound, Leads, Leads-trans, Ends, process-Ends, finish_processed-Leads,
  finish_processed-delimiter,
}
use oklib.Http.Multipart.Streaming.Total.{process_total}

pub data StreamCall : Type 0 where
  appends : Bytes → StreamCall
  finishes : StreamCall

abbrev pub stream_call : StreamCall → StreamingParser → Option Processing
stream_call (appends bytes) p = append_data bytes p
stream_call finishes p = finish_stream p

-- The calls one after another, whatever each of them returns; the result is that of the last.
abbrev pub stream_calls : List StreamCall → StreamingParser → Option Processing
stream_calls [] p = some (gives true [] p)
stream_calls (c ∷ cs) p = elim (stream_call c p) [
  | none ↦ none
  | some r ↦ behind_events r.events (stream_calls cs r.parser)
]

-- A parser between calls.
pub record Ready (p : StreamingParser) : Type 0 where
  pub sound : Sound p
  pub separated : 1 ≤ length p.delimiter

-- A call has returned, and leaves a parser that is ready.
abbrev pub Returned : StreamingParser → Option Processing → Type 0
Returned p o =
    (r : Processing) × (o ≡ some r)
    × Leads p.completed_callback_called r.events r.parser
    × (1 ≤ length r.parser.delimiter)

process-Returned : (p : StreamingParser) → Ready p → Returned p (process p)
process-Returned p h =
    let (r, e, same) = process_total p h.separated in
    (r, e, subst (Ends p) e (process-Ends p h.sound), omega (arith, ap length same, h.separated))

append_data-cases :
    (bytes : Bytes) (p : StreamingParser)
    → ((b : Bool) × (append_data bytes p ≡ some (gives b [] p)))
      ⊎ (append_data bytes p ≡ process (record p { buffer = p.buffer ++ bytes }))
unfolding append_data
append_data-cases bytes p = by_state p.state refl
  where
    by_state :
        (s : StreamingState)
        → p.state ≡ s
        → ((b : Bool) × (append_data bytes p ≡ some (gives b [] p)))
          ⊎ (append_data bytes p ≡ process (record p { buffer = p.buffer ++ bytes }))
    by_state done e = inl (is_empty bytes, unfold append_data in ground (arith, e))
    by_state in_error e = inl (false, unfold append_data in ground (arith, e))
    by_state first_boundary e = inr (unfold append_data in ground (arith, e))
    by_state in_headers e = inr (unfold append_data in ground (arith, e))
    by_state in_body e = inr (unfold append_data in ground (arith, e))
    by_state boundary_suffix e = inr (unfold append_data in ground (arith, e))

call-Returned : (c : StreamCall) (p : StreamingParser) → Ready p → Returned p (stream_call c p)
unfolding after
call-Returned (appends bytes) p h = elim (append_data-cases bytes p) [
  | inl (b, e) ↦ (gives b [] p, e, (refl, h.sound), h.separated)
  | inr e ↦
      let (r, found, leads, d) =
        process-Returned (record p { buffer = p.buffer ++ bytes })
          (record { sound = h.sound; separated = h.separated }) in
      (r, e ∙ found, leads, d)
]
call-Returned finishes p h =
    let (r, found, leads, d) = process-Returned p h in
    (
      finish_processed r,
      finished r found,
      finish_processed-Leads p.completed_callback_called r leads,
      omega (arith, d, ap length (finish_processed-delimiter r)),
    )
  where
    finished : (r : Processing) → process p ≡ some r → finish_stream p ≡ some (finish_processed r)
    finished r e = unfold finish_stream in rw (e, finish_stream) refl

calls-Returned :
    (cs : List StreamCall) (p : StreamingParser) → Ready p → Returned p (stream_calls cs p)
unfolding after
calls-Returned [] p h = (gives true [] p, refl, (refl, h.sound), h.separated)
calls-Returned (c ∷ cs) p h =
    let (r, e, (k, s), d) = call-Returned c p h in
    let (q, f, leads, d2) = calls-Returned cs r.parser (record { sound = s; separated = d }) in
    (
      record q { events = r.events ++ q.events },
      rw (e, stream_calls) (ap (behind_events r.events) f),
      Leads-trans p.completed_callback_called r.events q.events r.parser q.parser k leads,
      d2,
    )

new_parser-Ready :
    (boundary : Bytes) (options : StreamingOptions)
    → Ready (new_streaming_parser boundary options)
      × ((new_streaming_parser boundary options).completed_callback_called ≡ false)
unfolding new_streaming_parser
new_parser-Ready boundary options = ground arith

-- From a new parser on, whatever is appended in whatever pieces, and wherever `finish` is called
-- between them: every call returns; the complete callback runs once if the parser is done, and does
-- not run otherwise; and no part, no data and no second end comes behind it.
pub stream_calls-after :
    (boundary : Bytes) (options : StreamingOptions) (cs : List StreamCall)
    → (r : Processing) × (stream_calls cs (new_streaming_parser boundary options) ≡ some r)
      × (after false r.events ≡ some (is_done r.parser.state))
stream_calls-after boundary options cs =
    let (h, c) = new_parser-Ready boundary options in
    let (r, e, (k, s), _) = calls-Returned cs (new_streaming_parser boundary options) h in
    (r, e, ap (λ b. after b r.events) (sym c) ∙ k ∙ ap some s)
