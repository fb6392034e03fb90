-- ===== src/Http/Context/Delivery.antt =====
-- What the data callback is given while a body arrives.
use oklib.Common.{
  All, Bytes, ℕ, ◌≡◌, refl, sym, ap, ap₂, ◌∙◌, true, false, Option, none, some, List, [], ◌∷◌, ◌++◌,
  append-nil, append_assoc, arith,
}
use oklib.Http.Text.{is_empty}
use oklib.Http.BodyStream.{
  Callback, fire, drop_callbacks, pause_reading, resume_reading, on_data, on_complete, call, run,
  BodyStream, Event, data_event, complete_event, cancel_event, pause_event, resume_event, Call,
  set_data_callback, set_complete_callback, set_cancel_callback, set_pause_callback,
  set_resume_callback, pauses, resumes, completes_body, cancels_body, gets_data,
}
use oklib.Http.Context.Streaming.{answer}

-- The bytes that the data callbacks are given, put together.
abbrev pub data_of : List Event → Bytes
data_of [] = []
data_of (data_event f chunk ∷ es) = chunk ++ data_of es
data_of (_ ∷ es) = data_of es

-- A stream that has a data callback and has not ended.
pub record Listening (s : BodyStream) : Type 0 where
  pub listener : Callback
  pub listens : s.data_callback ≡ some listener
  pub not_canceled : s.canceled ≡ false
  pub not_completed : s.completed ≡ false

-- The call stops or starts the reading, and nothing else.
abbrev pub IsFlow : Call → Type 0
IsFlow pauses = Unit
IsFlow resumes = Unit
IsFlow _ = ⊥

-- Callbacks that do no more to the stream than to pause it and to resume it.
abbrev pub Flows : (Event → List Call) → Type 0
Flows react = (e : Event) → All IsFlow (react e)

pub data_of-append : (es fs : List Event) → data_of (es ++ fs) ≡ data_of es ++ data_of fs
data_of-append [] fs = refl
data_of-append (data_event f chunk ∷ es) fs =
    ap (◌++◌ chunk) (data_of-append es fs) ∙ sym (append_assoc chunk (data_of es) (data_of fs))
data_of-append (complete_event f ∷ es) fs = data_of-append es fs
data_of-append (cancel_event f ∷ es) fs = data_of-append es fs
data_of-append (pause_event f ∷ es) fs = data_of-append es fs
data_of-append (resume_event f ∷ es) fs = data_of-append es fs

-- No data, and the ends of the stream as they were.
pub record Quiet (s : BodyStream) (r : List Event × BodyStream) : Type 0 where
  pub no_data : data_of r.0 ≡ []
  pub same_listener : (r.1).data_callback ≡ s.data_callback
  pub same_canceled : (r.1).canceled ≡ s.canceled
  pub same_completed : (r.1).completed ≡ s.completed

fire_no_data :
    (event : Callback → Event) (f : Option Callback)
    → ((g : Callback) → data_of (event g ∷ []) ≡ [])
    → data_of (fire event f) ≡ []
fire_no_data event none h = refl
fire_no_data event (some g) h = h g

call-Quiet : (c : Call) (s : BodyStream) → IsFlow c → Quiet s (call c s)
unfolding call pause_reading resume_reading
call-Quiet pauses s h = ground (arith, fire_no_data pause_event s.pause_callback (λ g. refl))
call-Quiet resumes s h = ground (arith, fire_no_data resume_event s.resume_callback (λ g. refl))
call-Quiet (set_data_callback f) s h = absurd h
call-Quiet (set_complete_callback f) s h = absurd h
call-Quiet (set_cancel_callback f) s h = absurd h
call-Quiet (set_pause_callback f) s h = absurd h
call-Quiet (set_resume_callback f) s h = absurd h
call-Quiet completes_body s h = absurd h
call-Quiet cancels_body s h = absurd h
call-Quiet (gets_data chunk) s h = absurd h

run-Quiet : (cs : List Call) (s : BodyStream) → All IsFlow cs → Quiet s (run cs s)
unfolding run
run-Quiet [] s h = ground arith
run-Quiet (c ∷ cs) s (h, hs) =
    let one = call-Quiet c s h in
    let more = run-Quiet cs (call c s).1 hs in
    record {
      no_data =
          data_of-append (call c s).0 (run cs (call c s).1).0 ∙ ap₂ ◌++◌ one.no_data more.no_data;
      same_listener = more.same_listener ∙ one.same_listener;
      same_canceled = more.same_canceled ∙ one.same_canceled;
      same_completed = more.same_completed ∙ one.same_completed;
    }

-- The answers add no data, and leave the ends of the stream as they were.
pub record Answered (es : List Event) (s : BodyStream) (r : List Event × BodyStream) : Type 0 where
  pub same_data : data_of r.0 ≡ data_of es
  pub kept_listener : (r.1).data_callback ≡ s.data_callback
  pub kept_canceled : (r.1).canceled ≡ s.canceled
  pub kept_completed : (r.1).completed ≡ s.completed

pub answer-Answered :
    (react : Event → List Call) (es : List Event) (s : BodyStream)
    → Flows react
    → Answered es s (answer react (es, s))
unfolding answer
answer-Answered react [] s h = ground arith
answer-Answered react (e ∷ es) s h =
    let one = run-Quiet (react e) s (h e) in
    let more = answer-Answered react es (run (react e) s).1 h in
    record {
      same_data =
          data_of-append (e ∷ []) _
          ∙ ap (◌++◌ (data_of (e ∷ [])))
              (data_of-append (run (react e) s).0 _ ∙ ap₂ ◌++◌ one.no_data more.same_data)
          ∙ sym (data_of-append (e ∷ []) es);
      kept_listener = more.kept_listener ∙ one.same_listener;
      kept_canceled = more.kept_canceled ∙ one.same_canceled;
      kept_completed = more.kept_completed ∙ one.same_completed;
    }

on_data_fires :
    (x : ℕ) (xs : Bytes) (s : BodyStream) (l : Listening s)
    → on_data (x ∷ xs) s ≡ (data_event l.listener (x ∷ xs) ∷ [], s)
unfolding on_data is_empty
on_data_fires x xs s l = rw (l.listens, l.not_canceled, l.not_completed) refl

on_data_nothing : (s : BodyStream) → on_data [] s ≡ ([], s)
unfolding on_data is_empty
on_data_nothing s = refl

listening_answers :
    (react : Event → List Call) (es : List Event) (s : BodyStream)
    → Flows react
    → Listening s
    → (data_of (answer react (es, s)).0 ≡ data_of es) × Listening (answer react (es, s)).1
listening_answers react es s h l =
    let a = answer-Answered react es s h in
    (
      a.same_data,
      record {
        listener = l.listener;
        listens = a.kept_listener ∙ l.listens;
        not_canceled = a.kept_canceled ∙ l.not_canceled;
        not_completed = a.kept_completed ∙ l.not_completed;
      },
    )

-- A stream that listens is given exactly the bytes, and goes on to listen.
pub deliver-Listening :
    (react : Event → List Call) (chunk : Bytes) (s : BodyStream)
    → Flows react
    → Listening s
    → (data_of (answer react (on_data chunk s)).0 ≡ chunk)
      × Listening (answer react (on_data chunk s)).1
deliver-Listening react [] s h l = rw (on_data_nothing s) (listening_answers react [] s h l)
deliver-Listening react (x ∷ xs) s h l =
    let a = listening_answers react (data_event l.listener (x ∷ xs) ∷ []) s h l in
    rw (on_data_fires x xs s l) (a.0 ∙ append-nil (x ∷ xs), a.1)

-- The end of a stream that listens: its complete callback, and no data.
pub complete-Listening :
    (react : Event → List Call) (s : BodyStream)
    → Flows react
    → Listening s
    → (data_of (answer react (on_complete s)).0 ≡ [])
      × ((answer react (on_complete s)).1.completed ≡ true)
complete-Listening react s h l = rw (ends s l) (
    let a =
      answer-Answered react (fire complete_event s.complete_callback)
        (record (drop_callbacks s) { completed = true }) h in
    (a.same_data ∙ fire_no_data complete_event s.complete_callback (λ g. refl), a.kept_completed))
  where
    ends :
        (s : BodyStream)
        → Listening s
        → on_complete s ≡ (
          fire complete_event s.complete_callback,
          record (drop_callbacks s) { completed = true },
        )
    ends s l = unfold on_complete in rw (l.not_canceled, l.not_completed) refl
