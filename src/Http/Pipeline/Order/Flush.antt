-- ===== src/Http/Pipeline/Order/Flush.antt =====
-- A flush sends all that is to be sent.
use oklib.Common.{
  ◌==◌, if◌then◌else◌, Bool-cases, Option-cases, length, Bytes, ℕ, zero, suc, ◌+◌, ◌≤◌, ◌<◌, ◌≡◌,
  refl, sym, ap, subst, ◌∙◌, ◌≢◌, ◌⊎◌, inl, inr, true, false, none, some, List, [], ◌++◌,
  append-nil, append_assoc, arith,
}
use oklib.Http.Pipeline.{
  PendingMap, find_pending, put_pending, erase_pending, or_new, pending_or_new, flush_loop,
  PendingResponse, PipelineState, Flushed,
}
use oklib.Http.Pipeline.Pending.{find-put, find-erase, length-erase}
use oklib.Http.Pipeline.Order.{
  History, bytes_of, Passed-InOrder, Matches, InOrder, waits, stops, one_passed,
}

pub new-put :
    (i : ℕ) (r : PendingResponse) (m : PendingMap) (j : ℕ)
    → ((i ≡ j → pending_or_new j (put_pending i r m) ≡ r)
        × (i ≢ j → pending_or_new j (put_pending i r m) ≡ pending_or_new j m))
new-put i r m j =
    ((λ e. ap or_new (find-put i r m j) ∙ taken e), (λ o. ap or_new (find-put i r m j) ∙ left o))
  where
    taken : i ≡ j → or_new (if i == j then some r else find_pending j m) ≡ r
    taken e = ground (arith, e)

    left : i ≢ j → or_new (if i == j then some r else find_pending j m) ≡ pending_or_new j m
    left o = ground (arith, o)

new-erase :
    (i : ℕ) (m : PendingMap) (j : ℕ)
    → i < j
    → pending_or_new j (erase_pending i m) ≡ pending_or_new j m
new-erase i m j h = ap or_new (find-erase i m j) ∙ (ground arith)

-- The state of the pipeline behind a flush: it goes on, or the connection is being closed.
pub data Flushes (h : History) (sent : List Bytes) (s : PipelineState) : Type 0 where
  still_open : Matches s sent h → Flushes h sent s
  now_closed : s.closed ≡ true → Flushes h sent s

-- The states behind a round.
abbrev emptied : PendingResponse → PipelineState → PipelineState
emptied r s = record s { pending = put_pending s.next_to_send (record r { chunks = [] }) s.pending }

abbrev erased : PipelineState → PipelineState
erased s = record s {
  pending = erase_pending s.next_to_send s.pending;
  next_to_send = s.next_to_send + 1;
}

same_or_other : (i j : ℕ) → i ≤ j → (i ≡ j) ⊎ (i < j)
same_or_other i j h = ground arith

emptied-Matches :
    (s : PipelineState) (sent : List Bytes) (h : History) (r : PendingResponse)
    → Matches s sent h
    → find_pending s.next_to_send s.pending ≡ some r
    → Matches (emptied r s) (sent ++ r.chunks) h
emptied-Matches s sent h r m found = record {
  unclosed = m.unclosed;
  whole = m.whole;
  part = m.part ++ r.chunks;
  passed = m.passed;
  split = ap (λ xs. xs ++ r.chunks) m.split ∙ append_assoc m.whole m.part r.chunks;
  front =
      ap (λ (q : PendingResponse). (m.part ++ r.chunks) ++ q.chunks) (own s.next_to_send refl)
      ∙ append-nil (m.part ++ r.chunks)
      ∙ ap (λ (q : PendingResponse). m.part ++ q.chunks) (sym e)
      ∙ m.front;
  later = λ i lt. ap (λ (q : PendingResponse). q.chunks) (above i lt) ∙ m.later i lt;
  finished = λ i le. elim (same_or_other s.next_to_send i le) [
    | inl eq ↦
        ap (λ (q : PendingResponse). q.finished) (own i eq)
        ∙ ap (λ (q : PendingResponse). q.finished)
            (sym (ap (λ k. pending_or_new k s.pending) (sym eq) ∙ e))
        ∙ m.finished i le
    | inr lt ↦ ap (λ (q : PendingResponse). q.finished) (above i lt) ∙ m.finished i le
  ];
  closing = λ i le. elim (same_or_other s.next_to_send i le) [
    | inl eq ↦
        ap (λ (q : PendingResponse). q.close_connection) (own i eq)
        ∙ ap (λ (q : PendingResponse). q.close_connection)
            (sym (ap (λ k. pending_or_new k s.pending) (sym eq) ∙ e))
        ∙ m.closing i le
    | inr lt ↦ ap (λ (q : PendingResponse). q.close_connection) (above i lt) ∙ m.closing i le
  ];
}
  where
    e : pending_or_new s.next_to_send s.pending ≡ r
    e = ap or_new found

    own :
        (i : ℕ)
        → s.next_to_send ≡ i
        → pending_or_new i (emptied r s).pending ≡ record r { chunks = [] }
    own i eq = (new-put s.next_to_send (record r { chunks = [] }) s.pending i).0 eq

    above :
        (i : ℕ)
        → s.next_to_send < i
        → pending_or_new i (emptied r s).pending ≡ pending_or_new i s.pending
    above i lt =
        (new-put s.next_to_send (record r { chunks = [] }) s.pending i).1
          (λ eq. absurd (omega arith))

erased-Matches :
    (s : PipelineState) (sent : List Bytes) (h : History) (r : PendingResponse)
    → Matches s sent h
    → find_pending s.next_to_send s.pending ≡ some r
    → r.finished ≡ true
    → r.close_connection ≡ false
    → Matches (erased s) (sent ++ r.chunks) h
erased-Matches s sent h r m found f c = record {
  unclosed = m.unclosed;
  whole = m.whole ++ bytes_of s.next_to_send h;
  part = [];
  passed =
      one_passed m.passed
        (sym (m.finished s.next_to_send (omega arith))
          ∙ ap (λ (q : PendingResponse). q.finished) (ap or_new found)
          ∙ f)
        (sym (m.closing s.next_to_send (omega arith))
          ∙ ap (λ (q : PendingResponse). q.close_connection) (ap or_new found)
          ∙ c);
  split =
      ap (λ xs. xs ++ r.chunks) m.split
      ∙ append_assoc m.whole m.part r.chunks
      ∙ ap (◌++◌ m.whole)
          (ap (λ (q : PendingResponse). m.part ++ q.chunks) (sym (ap or_new found)) ∙ m.front)
      ∙ sym (append-nil _);
  front =
      ap (λ (q : PendingResponse). q.chunks) (above (s.next_to_send + 1) (omega arith))
      ∙ m.later (s.next_to_send + 1) (omega arith);
  later = λ i lt.
      ap (λ (q : PendingResponse). q.chunks) (above i (omega arith)) ∙ m.later i (omega arith);
  finished = λ i le.
      ap (λ (q : PendingResponse). q.finished) (above i (omega arith)) ∙ m.finished i (omega arith);
  closing = λ i le.
      ap (λ (q : PendingResponse). q.close_connection) (above i (omega arith))
      ∙ m.closing i (omega arith);
}
  where
    above :
        (i : ℕ)
        → s.next_to_send < i
        → pending_or_new i (erased s).pending ≡ pending_or_new i s.pending
    above i lt = new-erase s.next_to_send s.pending i lt

-- All of the front that has been handed in is sent.
front_sent :
    (s : PipelineState) (sent chunks : List Bytes) (h : History) (m : Matches s sent h)
    → (pending_or_new s.next_to_send s.pending).chunks ≡ chunks
    → m.whole ++ bytes_of s.next_to_send h ≡ sent ++ chunks
front_sent s sent chunks h m e =
    ap (◌++◌ m.whole) (sym m.front ∙ ap (◌++◌ m.part) e)
    ∙ sym (append_assoc m.whole m.part chunks)
    ∙ ap (λ xs. xs ++ chunks) (sym m.split)

-- A flush, with what it sends.
pub record SentAll (h : History) (sent : List Bytes) (f : Flushed) : Type 0 where
  pub after : Flushes h (sent ++ f.sends) f.state
  pub in_order : InOrder h 0 (sent ++ f.sends)

-- The rounds of the loop, one for each of its branches.
nothing_ready :
    (fuel : ℕ) (s : PipelineState)
    → find_pending s.next_to_send s.pending ≡ none
    → flush_loop (suc fuel) s ≡ record { sends = []; shuts_down = false; state = s }
unfolding flush_loop
nothing_ready fuel s e = rw (e, flush_loop) refl

unfinished_round :
    (fuel : ℕ) (s : PipelineState) (r : PendingResponse)
    → find_pending s.next_to_send s.pending ≡ some r
    → r.finished ≡ false
    → flush_loop (suc fuel) s ≡ record { sends = r.chunks; shuts_down = false; state = emptied r s }
unfolding flush_loop
unfinished_round fuel s r e f = rw (e, flush_loop) (ground (arith, f))

closing_round :
    (fuel : ℕ) (s : PipelineState) (r : PendingResponse)
    → find_pending s.next_to_send s.pending ≡ some r
    → r.finished ≡ true
    → r.close_connection ≡ true
    → flush_loop (suc fuel) s
      ≡ record { sends = r.chunks; shuts_down = true; state = record (erased s) { closed = true } }
unfolding flush_loop
closing_round fuel s r e f c = rw (e, flush_loop) (ground (arith, f, c))

next_round :
    (fuel : ℕ) (s : PipelineState) (r : PendingResponse)
    → find_pending s.next_to_send s.pending ≡ some r
    → r.finished ≡ true
    → r.close_connection ≡ false
    → flush_loop (suc fuel) s ≡ record (flush_loop fuel (erased s)) {
      sends = r.chunks ++ (flush_loop fuel (erased s)).sends;
    }
unfolding flush_loop
next_round fuel s r e f c = rw (e, flush_loop) (ground (arith, f, c))

SentAll-behind :
    (h : History) (sent chunks : List Bytes) (f : Flushed)
    → SentAll h (sent ++ chunks) f
    → SentAll h sent (record f { sends = chunks ++ f.sends })
SentAll-behind h sent chunks f a = record {
  after = subst (λ w. Flushes h w f.state) (append_assoc sent chunks f.sends) a.after;
  in_order = subst (InOrder h 0) (append_assoc sent chunks f.sends) a.in_order;
}

pub flush_loop-SentAll :
    (fuel : ℕ) (s : PipelineState) (sent : List Bytes) (h : History)
    → Matches s sent h
    → length s.pending < fuel
    → SentAll h sent (flush_loop fuel s)
flush_loop-SentAll zero s sent h m lt = absurd (omega arith)
flush_loop-SentAll (suc fuel) s sent h m lt =
    elim (Option-cases (find_pending s.next_to_send s.pending)) [
      | inl e ↦ subst (SentAll h sent) (sym (nothing_ready fuel s e)) (record {
        after = still_open (subst (λ w. Matches s w h) (sym (append-nil sent)) m);
        in_order =
            subst (InOrder h 0)
              (front_sent s sent [] h m (ap (λ (q : PendingResponse). q.chunks) (ap or_new e)))
              (Passed-InOrder m.passed _ (
                waits (
                  sym (m.finished s.next_to_send (omega arith))
                  ∙ ap (λ (q : PendingResponse). q.finished) (ap or_new e))));
      })
      | inr (r, e) ↦
          let here = ap or_new e in
          let whole =
            front_sent s sent r.chunks h m (ap (λ (q : PendingResponse). q.chunks) here) in
          let ended =
            sym (m.finished s.next_to_send (omega arith))
            ∙ ap (λ (q : PendingResponse). q.finished) here in
          let closing =
            sym (m.closing s.next_to_send (omega arith))
            ∙ ap (λ (q : PendingResponse). q.close_connection) here in
          elim (Bool-cases r.finished) [
            | inr f ↦ subst (SentAll h sent) (sym (unfinished_round fuel s r e f)) (record {
              after = still_open (emptied-Matches s sent h r m e);
              in_order = subst (InOrder h 0) whole (Passed-InOrder m.passed _ (waits (ended ∙ f)));
            })
            | inl f ↦ elim (Bool-cases r.close_connection) [
              | inl c ↦ subst (SentAll h sent) (sym (closing_round fuel s r e f c)) (record {
                after = now_closed refl;
                in_order =
                    subst (InOrder h 0) whole
                      (Passed-InOrder m.passed _ (stops (ended ∙ f) (closing ∙ c)));
              })
              | inr c ↦ subst (SentAll h sent) (sym (next_round fuel s r e f c)) (
                  SentAll-behind h sent r.chunks (flush_loop fuel (erased s)) (
                    flush_loop-SentAll fuel (erased s) (sent ++ r.chunks) h
                      (erased-Matches s sent h r m e f c)
                      (omega (arith, length-erase s.next_to_send s.pending e))))
            ]
          ]
    ]
