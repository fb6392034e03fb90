-- ===== src/Http/Multipart/Streaming/Ends.antt =====
-- What the callbacks of the streaming parser see, whatever is appended.
use oklib.Common.{
  ltb, Bool-cases, Option-cases, length, take, drop, Bytes, ℕ, zero, suc, ◌-◌, min, ◌≡◌, refl, sym,
  ap, subst, ◌∙◌, inl, inr, Bool, true, false, Option, none, some, List, [], ◌∷◌, ◌++◌, append-nil,
  arith,
}
use oklib.Http.Multipart.Streaming.{
  complete_once, emit_data, end_body, process_boundary_suffix, process_first_boundary, part_in,
  begin_streaming_part, process_headers, emit_front, end_part, process_body, process_in, leaves,
  behind_events, process_loop, process, finish_processed, StreamingParser, Processing,
  StreamingState, first_boundary, in_headers, in_body, boundary_suffix, done, in_error, StreamEvent,
  part_event, chunk_event, complete_event,
}
use oklib.Http.Multipart.Values.{find_text, parse_part_headers}
use oklib.Http.Multipart.{double_crlf}
use oklib.Http.Multipart.Streaming.Total.{loop_goes_on, loop_leaves}

-- The events that may come before the end, and then the end. The flag says that the end has come;
-- the result is the flag behind the events, or `none` where an event comes behind the end.
unfoldable pub after : Bool → List StreamEvent → Option Bool
after ended [] = some ended
after true (e ∷ es) = none
after false (complete_event ∷ es) = after true es
after false (part_event part ∷ es) = after false es
after false (chunk_event chunk ∷ es) = after false es

after-append :
    (ended : Bool) (es fs : List StreamEvent) {then_ended : Bool}
    → after ended es ≡ some then_ended
    → after ended (es ++ fs) ≡ after then_ended fs
unfolding after
after-append ended [] fs h = ap (λ e. after e fs) (some-injective h)
  where
    some-injective : {a b : Bool} → some a ≡ some b → a ≡ b
    some-injective e = cc
after-append true (e ∷ es) fs h = absurd cc
after-append false (complete_event ∷ es) fs h = after-append true es fs h
after-append false (part_event part ∷ es) fs h = after-append false es fs h
after-append false (chunk_event chunk ∷ es) fs h = after-append false es fs h

abbrev pub is_done : StreamingState → Bool
is_done done = true
is_done _ = false

-- The complete callback has been called if the body is done, and only then.
abbrev pub Sound : StreamingParser → Type 0
Sound p = p.completed_callback_called ≡ is_done p.state

-- The events of a call lead from the flag of one parser to that of the next.
abbrev pub Leads : Bool → List StreamEvent → StreamingParser → Type 0
Leads ended es q = (after ended es ≡ some q.completed_callback_called) × Sound q

suffix-Leads :
    (p : StreamingParser)
    → p.completed_callback_called ≡ false
    → is_done p.state ≡ false
    → Leads false (process_boundary_suffix p).events (process_boundary_suffix p).parser
unfolding process_boundary_suffix end_body complete_once after
suffix-Leads p h d = ground arith

first-Leads :
    (p : StreamingParser)
    → p.completed_callback_called ≡ false
    → is_done p.state ≡ false
    → Leads false (process_first_boundary p).events (process_first_boundary p).parser
unfolding process_first_boundary after
first-Leads p h d =
    ground (arith, suffix-Leads (record p { buffer = drop (length p.marker) p.buffer }) h d)

headers-Leads :
    (p : StreamingParser)
    → p.completed_callback_called ≡ false
    → is_done p.state ≡ false
    → Leads false (process_headers p).events (process_headers p).parser
unfolding process_headers begin_streaming_part after
headers-Leads p h d = elim (Option-cases (find_text double_crlf p.buffer)) [
  | inl n ↦ rw (n, process_headers) (ground arith)
  | inr (i, f) ↦ elim (Bool-cases (ltb p.options.max_header_bytes i)) [
    | inl e ↦ rw (f, e, process_headers) (ground arith)
    | inr e ↦ elim (Option-cases (part_in (parse_part_headers (take i p.buffer)))) [
      | inl n ↦ rw (f, e, n, process_headers, begin_streaming_part) (ground arith)
      | inr (part, n) ↦ rw (f, e, n, process_headers, begin_streaming_part) (ground arith)
    ]
  ]
]

emit_data-Leads :
    (chunk : Bytes) (p : StreamingParser)
    → p.completed_callback_called ≡ false
    → is_done p.state ≡ false
    → (after false (emit_data chunk p).0 ≡ some false)
      × ((emit_data chunk p).1.completed_callback_called ≡ false)
      × (is_done (emit_data chunk p).1.state ≡ false)
unfolding emit_data after
emit_data-Leads chunk p h d = ground arith

body-Leads :
    (p : StreamingParser)
    → p.completed_callback_called ≡ false
    → is_done p.state ≡ false
    → Leads false (process_body p).events (process_body p).parser
unfolding process_body emit_front end_part after
body-Leads p h d = elim (Option-cases (find_text p.delimiter p.buffer)) [
  | inl n ↦
      let keep = min (length p.buffer) (length p.delimiter - 1) in
      rw (n, process_body)
        (ground (arith, emit_data-Leads (take (length p.buffer - keep) p.buffer) p h d))
  | inr (i, f) ↦ rw (f, process_body) (ground (arith, emit_data-Leads (take i p.buffer) p h d))
]

process_in-Leads :
    (s : StreamingState) (p : StreamingParser)
    → p.completed_callback_called ≡ false
    → is_done p.state ≡ false
    → Leads false (process_in s p).events (process_in s p).parser
unfolding process_in after
process_in-Leads first_boundary p h d = first-Leads p h d
process_in-Leads in_headers p h d = headers-Leads p h d
process_in-Leads in_body p h d = body-Leads p h d
process_in-Leads boundary_suffix p h d = suffix-Leads p h d
process_in-Leads done p h d = (ap some (sym h), h ∙ sym d)
process_in-Leads in_error p h d = (ap some (sym h), h ∙ sym d)

open_round :
    (p : StreamingParser) (s : StreamingState)
    → p.state ≡ s
    → Sound p
    → is_done s ≡ false
    → Leads p.completed_callback_called (process_in s p).events (process_in s p).parser
open_round p s e h d =
    let not_done : is_done p.state ≡ false = ap is_done e ∙ d in
    subst (λ c. Leads c (process_in s p).events (process_in s p).parser) (sym (h ∙ not_done))
      (process_in-Leads s p (h ∙ not_done) not_done)

-- A round from any sound parser.
round-Leads :
    (s : StreamingState) (p : StreamingParser)
    → p.state ≡ s
    → Sound p
    → Leads p.completed_callback_called (process_in s p).events (process_in s p).parser
unfolding after process_in
round-Leads first_boundary p e h = open_round p first_boundary e h refl
round-Leads in_headers p e h = open_round p in_headers e h refl
round-Leads in_body p e h = open_round p in_body e h refl
round-Leads boundary_suffix p e h = open_round p boundary_suffix e h refl
round-Leads done p e h = (refl, h)
round-Leads in_error p e h = (refl, h)

leaves-Leads :
    (p : StreamingParser)
    → Sound p
    → Leads p.completed_callback_called (leaves p).events (leaves p).parser
unfolding leaves complete_once after
leaves-Leads p h = ground arith

pub Leads-trans :
    (ended : Bool) (es fs : List StreamEvent) (p q : StreamingParser)
    → after ended es ≡ some p.completed_callback_called
    → Leads p.completed_callback_called fs q
    → Leads ended (es ++ fs) q
Leads-trans ended es fs p q h (k, s) = (after-append ended es fs h ∙ k, s)

-- What a call that has returned has done.
abbrev pub Ends : StreamingParser → Option Processing → Type 0
Ends p none = Unit
Ends p (some r) = Leads p.completed_callback_called r.events r.parser

behind-Ends :
    (es : List StreamEvent) (p q : StreamingParser) (o : Option Processing)
    → after p.completed_callback_called es ≡ some q.completed_callback_called
    → Ends q o
    → Ends p (behind_events es o)
behind-Ends es p q none h e = tt
behind-Ends es p q (some r) h e = Leads-trans p.completed_callback_called es r.events q r.parser h e

process_loop-Ends : (fuel : ℕ) (p : StreamingParser) → Sound p → Ends p (process_loop fuel p)
unfolding process_loop
process_loop-Ends zero p h = tt
process_loop-Ends (suc fuel) p h =
    let r = process_in p.state p in
    let (k, s) = round-Leads p.state p refl h in
    elim (Bool-cases r.result) [
      | inl e ↦ subst (Ends p) (sym (loop_goes_on fuel p e)) (
          behind-Ends r.events p r.parser (process_loop fuel r.parser) k
            (process_loop-Ends fuel r.parser s))
      | inr e ↦ subst (Ends p) (sym (loop_leaves fuel p e)) (
          Leads-trans p.completed_callback_called r.events (leaves r.parser).events r.parser
            (leaves r.parser).parser k (leaves-Leads r.parser s))
    ]

-- All the rounds of `process`.
pub process-Ends : (p : StreamingParser) → Sound p → Ends p (process p)
unfolding process
process-Ends p h = process_loop-Ends (suc (length p.buffer)) p h

-- The end of `finish`.
pub finish_processed-Leads :
    (ended : Bool) (r : Processing)
    → Leads ended r.events r.parser
    → Leads ended (finish_processed r).events (finish_processed r).parser
unfolding finish_processed complete_once
finish_processed-Leads ended r (k, s) =
    ground (arith, k, s, append-nil r.events, ap (after ended) (append-nil r.events))

pub finish_processed-delimiter :
    (r : Processing) → (finish_processed r).parser.delimiter ≡ r.parser.delimiter
unfolding finish_processed complete_once
finish_processed-delimiter r = ground arith
