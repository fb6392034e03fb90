-- ===== src/Http/Pipeline/Order/Steps.antt =====
-- Any sequence of calls and flushes.
use oklib.Common.{
  ◌==◌, if◌then◌else◌, ==_iff, Bool-cases, length, Bytes, ℕ, suc, ◌≡◌, refl, sym, ap, subst, ◌∙◌,
  inl, inr, Bool, true, false, ◌&&◌, ◌||◌, List, [], ◌∷◌, ◌++◌, append-nil, append_assoc, arith,
}
use oklib.Http.Pipeline.{
  make_state, find_pending, put_pending, pending_or_new, enqueue, flush_loop, flush_ready_responses,
  PendingResponse, PipelineState, Enqueued,
}
use oklib.Http.Pipeline.Order.{History, ends, Orderly, Passed-more, Matches, InOrder, none_passed}
use oklib.Http.Pipeline.Order.Flush.{new-put, flush_loop-SentAll, Flushes, still_open, now_closed}

-- What happens under the mutex while the connection lives: a part of a response is handed in, or
-- the loop flushes.
pub data PipelineStep : Type 0 where
  hands_in : Enqueued → PipelineStep
  flushes : PipelineStep

-- A run: the state, all that has been given to `send`, what has been accepted, and whether
-- `shutdown` has been called.
pub record Run : Type 0 where
  pub state : PipelineState
  pub sent : List Bytes
  pub history : History

abbrev pub start : Run
start = record { state = make_state; sent = []; history = [] }

abbrev pub step : PipelineStep → Run → Run
step (hands_in e) r =
    let (accepted, s) = enqueue true e r.state in
    record r { state = s; history = if accepted then e ∷ r.history else r.history }
step flushes r =
    let f = flush_ready_responses true r.state in
    record r { state = f.state; sent = r.sent ++ f.sends }

abbrev pub run_steps : List PipelineStep → Run → Run
run_steps [] r = r
run_steps (s ∷ ss) r = run_steps ss (step s r)

-- A run whose sends agree with what has been accepted.
pub data Agrees (r : Run) : Type 0 where
  while_open : Matches r.state r.sent r.history → Agrees r
  once_closed : r.state.closed ≡ true → InOrder r.history 0 r.sent → Agrees r

start-Agrees : Agrees start
unfolding make_state find_pending
start-Agrees = while_open (record {
  unclosed = refl;
  whole = [];
  part = [];
  passed = none_passed;
  split = refl;
  front = refl;
  later = λ i lt. refl;
  finished = λ i le. refl;
  closing = λ i le. refl;
})

-- A part is added to a response.
abbrev added : Enqueued → PendingResponse → PendingResponse
added e r = record {
  chunks = r.chunks ++ e.bytes ∷ [];
  close_connection = r.close_connection || e.close_connection;
  finished = r.finished || e.finished;
}

abbrev handed : Enqueued → PipelineState → PipelineState
handed e s = record s {
  pending = put_pending e.sequence (added e (pending_or_new e.sequence s.pending)) s.pending;
}

handed_at :
    (e : Enqueued) (s : PipelineState) (i : ℕ)
    → pending_or_new i (handed e s).pending ≡ (
        if e.sequence == i
        then added e (pending_or_new i s.pending)
        else pending_or_new i s.pending)
handed_at e s i =
    let (own, other) =
      new-put e.sequence (added e (pending_or_new e.sequence s.pending)) s.pending i in
    elim (Bool-cases (e.sequence == i)) [
      | inl h ↦
          let eq = (==_iff e.sequence i).0 h in
          rw h (own eq ∙ ap (λ k. added e (pending_or_new k s.pending)) eq)
      | inr h ↦ rw h (other (λ eq. absurd (ground (arith, (==_iff e.sequence i).1 eq))))
    ]

chunks_at :
    (c : Bool) (e : Enqueued) (r : PendingResponse) (part bytes : List Bytes)
    → part ++ r.chunks ≡ bytes
    → part ++ (if c then added e r else r).chunks ≡ (if c then bytes ++ e.bytes ∷ [] else bytes)
chunks_at true e r part bytes h =
    sym (append_assoc part r.chunks (e.bytes ∷ [])) ∙ ap (λ xs. xs ++ e.bytes ∷ []) h
chunks_at false e r part bytes h = h

finished_at :
    (c : Bool) (e : Enqueued) (r : PendingResponse) (was : Bool)
    → r.finished ≡ was
    → (if c then added e r else r).finished ≡ (was || (c && e.finished))
finished_at c e r was h = ground (arith, h)

closing_at :
    (c : Bool) (e : Enqueued) (r : PendingResponse) (was : Bool)
    → r.close_connection ≡ was
    → (if c then added e r else r).close_connection ≡ (was || (c && e.close_connection))
closing_at c e r was h = ground (arith, h)

handed-Matches :
    (e : Enqueued) (s : PipelineState) (sent : List Bytes) (h : History)
    → ends e.sequence h ≡ false
    → Matches s sent h
    → Matches (handed e s) sent (e ∷ h)
handed-Matches e s sent h o m = record {
  unclosed = m.unclosed;
  whole = m.whole;
  part = m.part;
  passed = Passed-more m.passed e o;
  split = m.split;
  front =
      ap (λ (r : PendingResponse). m.part ++ r.chunks) (handed_at e s s.next_to_send)
      ∙ chunks_at (e.sequence == s.next_to_send) e (pending_or_new s.next_to_send s.pending) m.part
          _ m.front;
  later = λ i lt.
      ap (λ (r : PendingResponse). r.chunks) (handed_at e s i)
      ∙ chunks_at (e.sequence == i) e (pending_or_new i s.pending) [] _ (m.later i lt);
  finished = λ i le.
      ap (λ (r : PendingResponse). r.finished) (handed_at e s i)
      ∙ finished_at (e.sequence == i) e (pending_or_new i s.pending) _ (m.finished i le);
  closing = λ i le.
      ap (λ (r : PendingResponse). r.close_connection) (handed_at e s i)
      ∙ closing_at (e.sequence == i) e (pending_or_new i s.pending) _ (m.closing i le);
}

enqueue_open :
    (e : Enqueued) (s : PipelineState) → s.closed ≡ false → enqueue true e s ≡ (true, handed e s)
unfolding enqueue
enqueue_open e s h = ground (arith, h)

enqueue_closed :
    (e : Enqueued) (s : PipelineState) → s.closed ≡ true → enqueue true e s ≡ (false, s)
unfolding enqueue
enqueue_closed e s h = ground (arith, h)

flush_open :
    (s : PipelineState)
    → s.closed ≡ false
    → flush_ready_responses true s ≡ flush_loop (suc (length s.pending)) s
unfolding flush_ready_responses
flush_open s h = ground (arith, h)

flush_closed :
    (s : PipelineState)
    → s.closed ≡ true
    → flush_ready_responses true s ≡ record { sends = []; shuts_down = false; state = s }
unfolding flush_ready_responses
flush_closed s h = ground (arith, h)

-- A flush of an agreeing run has sent all that is to be sent, and the run agrees behind it.
flush-Agrees :
    (r : Run) → Agrees r → Agrees (step flushes r) × InOrder r.history 0 (step flushes r).sent
flush-Agrees r (while_open m) =
    let all =
      flush_loop-SentAll (suc (length r.state.pending)) r.state r.sent r.history m (omega arith) in
    rw (flush_open r.state m.unclosed) (behind_flush all.after all.in_order, all.in_order)
  where
    behind_flush :
        {s : PipelineState} {sent : List Bytes}
        → Flushes r.history sent s
        → InOrder r.history 0 sent
        → Agrees (record { state = s; sent = sent; history = r.history })
    behind_flush (still_open n) o = while_open n
    behind_flush (now_closed c) o = once_closed c o
flush-Agrees r (once_closed c o) =
    let same = subst (InOrder r.history 0) (sym (append-nil r.sent)) o in
    rw (flush_closed r.state c) (once_closed c same, same)

-- What a step accepts is in order if the history behind it is.
Orderly-before : (s : PipelineStep) (r : Run) → Orderly (step s r).history → Orderly r.history
Orderly-before flushes r h = h
Orderly-before (hands_in e) r h = dropped (enqueue true e r.state).0 h
  where
    dropped :
        (accepted : Bool)
        → Orderly (if accepted then e ∷ r.history else r.history)
        → Orderly r.history
    dropped true h = h.1
    dropped false h = h

step-Agrees :
    (s : PipelineStep) (r : Run) → Agrees r → Orderly (step s r).history → Agrees (step s r)
step-Agrees flushes r a h = (flush-Agrees r a).0
step-Agrees (hands_in e) r (while_open m) h =
    let eq = enqueue_open e r.state m.unclosed in
    subst
      (λ (x : Bool × PipelineState).
        Agrees (record r { state = x.1; history = if x.0 then e ∷ r.history else r.history }))
      (sym eq)
      (while_open (
        handed-Matches e r.state r.sent r.history
          (subst (λ (x : Bool × PipelineState). Orderly (if x.0 then e ∷ r.history else r.history))
            eq h).0
          m))
step-Agrees (hands_in e) r (once_closed c o) h =
    subst
      (λ (x : Bool × PipelineState).
        Agrees (record r { state = x.1; history = if x.0 then e ∷ r.history else r.history }))
      (sym (enqueue_closed e r.state c)) (once_closed c o)

Orderly-run :
    (ss : List PipelineStep) (r : Run) → Orderly (run_steps ss r).history → Orderly r.history
Orderly-run [] r h = h
Orderly-run (s ∷ ss) r h = Orderly-before s r (Orderly-run ss (step s r) h)

run_steps-Agrees :
    (ss : List PipelineStep) (r : Run)
    → Agrees r
    → Orderly (run_steps ss r).history
    → Agrees (run_steps ss r)
run_steps-Agrees [] r a h = a
run_steps-Agrees (s ∷ ss) r a h =
    run_steps-Agrees ss (step s r) (step-Agrees s r a (Orderly-run ss (step s r) h)) h

-- While the connection lives, and from its start on, parts of responses are handed in in any order,
-- by any writers, with flushes at any points between them; nothing that is accepted is handed in
-- for a response that has been finished. Then what a flush has sent, with what was sent before it,
-- is what was accepted, response by response in the order of their requests: every response that is
-- finished, up to the first that closes the connection, and of the first that is not finished all
-- that has been handed in.
pub flush-InOrder :
    (ss : List PipelineStep)
    → Orderly (run_steps ss start).history
    → InOrder (run_steps ss start).history 0 (step flushes (run_steps ss start)).sent
flush-InOrder ss h =
    (flush-Agrees (run_steps ss start) (run_steps-Agrees ss start start-Agrees h)).1
