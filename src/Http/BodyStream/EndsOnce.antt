-- ===== src/Http/BodyStream/EndsOnce.antt =====
-- What the callbacks see of a stream, whatever is called on it.
use oklib.Common.{
  ◌≡◌, refl, Bool, true, false, not, ◌&&◌, ◌||◌, Option, none, some, List, [], ◌∷◌, ◌++◌, arith,
}
use oklib.Http.BodyStream.{
  Callback, fire, pause_reading, resume_reading, on_data, on_complete, on_cancel, call, run,
  BodyStream, Event, data_event, complete_event, cancel_event, pause_event, resume_event, Call,
  set_data_callback, set_complete_callback, set_cancel_callback, set_pause_callback,
  set_resume_callback, pauses, resumes, completes_body, cancels_body, gets_data,
}

-- Data, then one end, then nothing but pauses. The flag says that the end has been seen.
unfoldable pub well_ended : Bool → List Event → Bool
well_ended ended [] = true
well_ended ended (data_event f chunk ∷ es) = not ended && well_ended ended es
well_ended ended (complete_event f ∷ es) = not ended && well_ended true es
well_ended ended (cancel_event f ∷ es) = not ended && well_ended true es
well_ended ended (pause_event f ∷ es) = well_ended ended es
well_ended ended (resume_event f ∷ es) = well_ended ended es

abbrev pub is_ended : BodyStream → Bool
is_ended s = s.canceled || s.completed

-- Less may come when more has ended.
well_ended-weaken : (es : List Event) → well_ended true es ≡ true → well_ended false es ≡ true
unfolding well_ended
well_ended-weaken [] h = refl
well_ended-weaken (data_event f chunk ∷ es) h = absurd (ground arith)
well_ended-weaken (complete_event f ∷ es) h = absurd (ground arith)
well_ended-weaken (cancel_event f ∷ es) h = absurd (ground arith)
well_ended-weaken (pause_event f ∷ es) h = well_ended-weaken es h
well_ended-weaken (resume_event f ∷ es) h = well_ended-weaken es h

fire_quiet :
    (event : Callback → Event) (f : Option Callback) (ended : Bool) (more : List Event)
    → ((g : Callback) → well_ended ended (event g ∷ more) ≡ well_ended ended more)
    → well_ended ended (fire event f ++ more) ≡ well_ended ended more
fire_quiet event none ended more h = refl
fire_quiet event (some g) ended more h = h g

-- What one call runs fits in front of what the calls behind it run.
call_step :
    (c : Call) (s : BodyStream) (more : List Event)
    → well_ended (is_ended (call c s).1) more ≡ true
    → well_ended (is_ended s) ((call c s).0 ++ more) ≡ true
unfolding call well_ended pause_reading resume_reading on_data on_complete on_cancel
call_step (set_data_callback f) s more h = h
call_step (set_complete_callback f) s more h = h
call_step (set_cancel_callback f) s more h = h
call_step (set_pause_callback f) s more h = h
call_step (set_resume_callback f) s more h = h
call_step pauses s more h =
    ground (arith, fire_quiet pause_event s.pause_callback (is_ended s) more (λ g. refl))
call_step resumes s more h =
    ground (arith, fire_quiet resume_event s.resume_callback (is_ended s) more (λ g. refl))
call_step completes_body s more h = ground (arith, well_ended-weaken more)
call_step cancels_body s more h = ground (arith, well_ended-weaken more)
call_step (gets_data chunk) s more h = ground arith

-- Whatever is called on a stream, in whatever order and with whatever callbacks, even with
-- callbacks that are set again after its end: the data callbacks run before the end, at most one of
-- the complete and cancel callbacks runs, it runs once, and no data follows it.
pub run-well_ended : (cs : List Call) (s : BodyStream) → well_ended (is_ended s) (run cs s).0 ≡ true
unfolding run well_ended
run-well_ended [] s = refl
run-well_ended (c ∷ cs) s = call_step c s (run cs (call c s).1).0 (run-well_ended cs (call c s).1)
