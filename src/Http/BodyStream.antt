-- ===== src/Http/BodyStream.antt =====
-- `HttpRequestBodyStream` of src/http/http_request_body_stream.cpp: the calls as functions. A
-- callback is a name; a call gives the callbacks that it runs, in their order. Interleaved runs of
-- two of them are in BodyStream/Threads.
pub mod EndsOnce
pub mod Threads
mod Tests
use oklib.Common.{
  if◌then◌else◌, Bytes, ℕ, Bool, true, false, ◌||◌, Option, none, some, List, [], ◌∷◌, ◌++◌,
}
use oklib.Http.Text.{is_empty}

abbrev pub Callback : Type 0
Callback = ℕ

pub record BodyStream : Type 0 where
  pub data_callback : Option Callback
  pub complete_callback : Option Callback
  pub cancel_callback : Option Callback
  pub pause_callback : Option Callback
  pub resume_callback : Option Callback
  pub completed : Bool
  pub canceled : Bool
  pub reading_paused : Bool

unfoldable pub new_body_stream : BodyStream
new_body_stream = record {
  data_callback = none;
  complete_callback = none;
  cancel_callback = none;
  pause_callback = none;
  resume_callback = none;
  completed = false;
  canceled = false;
  reading_paused = false;
}

-- A callback that is run.
pub data Event : Type 0 where
  data_event : Callback → Bytes → Event
  complete_event cancel_event pause_event resume_event : Callback → Event

-- `if (callback) callback()`.
abbrev pub fire : (Callback → Event) → Option Callback → List Event
fire event none = []
fire event (some callback) = event callback ∷ []

-- The callbacks that are dropped when the stream ends; a callback that is moved from is empty.
abbrev pub drop_callbacks : BodyStream → BodyStream
drop_callbacks s = record s {
  data_callback = none;
  complete_callback = none;
  cancel_callback = none;
  pause_callback = none;
  resume_callback = none;
}

unfoldable pub pause_reading : BodyStream → List Event × BodyStream
pause_reading s =
    if s.reading_paused
    then ([], s)
    else (fire pause_event s.pause_callback, record s { reading_paused = true })

unfoldable pub resume_reading : BodyStream → List Event × BodyStream
resume_reading s =
    if s.reading_paused
    then (fire resume_event s.resume_callback, record s { reading_paused = false })
    else ([], s)

unfoldable pub on_data : Bytes → BodyStream → List Event × BodyStream
on_data chunk s =
    if is_empty chunk || (s.canceled || s.completed)
    then ([], s)
    else (fire (λ f. data_event f chunk) s.data_callback, s)

unfoldable pub on_complete : BodyStream → List Event × BodyStream
on_complete s =
    if s.canceled || s.completed
    then ([], s)
    else (fire complete_event s.complete_callback, record (drop_callbacks s) { completed = true })

unfoldable pub on_cancel : BodyStream → List Event × BodyStream
on_cancel s =
    if s.canceled
    then ([], s)
    else if s.completed
    then ([], record s { canceled = true })
    else (fire cancel_event s.cancel_callback, record (drop_callbacks s) { canceled = true })

pub data Call : Type 0 where
  set_data_callback set_complete_callback set_cancel_callback : Option Callback → Call
  set_pause_callback set_resume_callback : Option Callback → Call
  pauses resumes completes_body cancels_body : Call
  gets_data : Bytes → Call

unfoldable pub call : Call → BodyStream → List Event × BodyStream
call (set_data_callback f) s = ([], record s { data_callback = f })
call (set_complete_callback f) s = ([], record s { complete_callback = f })
call (set_cancel_callback f) s = ([], record s { cancel_callback = f })
call (set_pause_callback f) s = ([], record s { pause_callback = f })
call (set_resume_callback f) s = ([], record s { resume_callback = f })
call pauses s = pause_reading s
call resumes s = resume_reading s
call completes_body s = on_complete s
call cancels_body s = on_cancel s
call (gets_data chunk) s = on_data chunk s

unfoldable pub run : List Call → BodyStream → List Event × BodyStream
run [] s = ([], s)
run (c ∷ cs) s =
    let (events, s') = call c s in let (more, last) = run cs s' in (events ++ more, last)
