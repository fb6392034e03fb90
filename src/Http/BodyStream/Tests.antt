-- ===== src/Http/BodyStream/Tests.antt =====
-- Runs of the body stream, and the theorems at concrete inputs.
use oklib.Common.{length, codes, ◌≤◌, ◌≡◌, refl, true, some, List, [], ◌∷◌}
use oklib.Http.Text.{is_empty}
use oklib.Http.BodyStream.{
  new_body_stream, on_data, on_complete, on_cancel, call, run, BodyStream, data_event,
  complete_event, Call, set_data_callback, set_complete_callback, set_cancel_callback,
  completes_body, cancels_body, gets_data,
}
use oklib.Http.BodyStream.EndsOnce.{well_ended, is_ended, run-well_ended}
use oklib.Http.BodyStream.Threads.{
  threads_run_once, System, complete_begins, complete_checked, cancel_begins, cancel_won,
  complete_saw_open, cancel_exchanged, one_moves, Reach, at_first, then_step,
}

abbrev calls : List Call
calls =
    set_data_callback (some 1)
    ∷ set_complete_callback (some 2)
    ∷ set_cancel_callback (some 3)
    ∷ gets_data (codes "ab")
    ∷ completes_body
    ∷ set_data_callback (some 4)
    ∷ gets_data (codes "cd")
    ∷ cancels_body
    ∷ []

calls-run : (run calls new_body_stream).0 ≡ data_event 1 (codes "ab") ∷ complete_event 2 ∷ []
unfolding run call new_body_stream on_data on_complete on_cancel is_empty
calls-run = refl

run-well_ended_example : well_ended (is_ended new_body_stream) (run calls new_body_stream).0 ≡ true
run-well_ended_example = run-well_ended calls new_body_stream

-- A stream with its two ends set, and a thread at each of the two calls.
abbrev ready : BodyStream
ready = record new_body_stream { complete_callback = some 2; cancel_callback = some 3 }

abbrev racing : System
racing = record { stream = ready; threads = complete_begins ∷ cancel_begins ∷ []; log = [] }

-- Both calls get past their first test.
abbrev raced : System
raced = record {
  stream = record ready { canceled = true };
  threads = complete_checked ∷ cancel_won ∷ [];
  log = [];
}

raced-Reach : Reach racing raced
unfolding new_body_stream
raced-Reach =
    then_step (then_step at_first (one_moves [] (cancel_begins ∷ []) refl (complete_saw_open refl)))
      (one_moves (complete_checked ∷ []) [] refl (cancel_exchanged refl))

threads_run_once_example : length raced.log ≤ 1
threads_run_once_example =
    threads_run_once ready (complete_begins ∷ cancel_begins ∷ []) raced (tt, (tt, tt)) raced-Reach
