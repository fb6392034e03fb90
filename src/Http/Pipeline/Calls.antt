-- ===== src/Http/Pipeline/Calls.antt =====
-- The calls of `HttpResponseWriter`, and what they hand to the pipeline. The exchange on
-- `write_state_` is one step.
use oklib.Common.{
  ◌==◌, if◌then◌else◌, Bytes, ℕ, ◌≡◌, refl, ◌⊎◌, inl, Bool, true, false, not, List, [], ◌∷◌, ◌++◌,
  map, arith,
}
use oklib.Buffer.{new_buffer, retrieve_all_as_string, Buffer}
use oklib.Http.Text.{is_empty}
use oklib.Http.Response.{append_headers_to_buffer, append_to_buffer, HttpResponse}
use oklib.Http.Writer.{encode_chunk, finish}
use oklib.Http.Pipeline.{
  make_state, find_pending, put_pending, erase_pending, enqueue, flush_loop, flush_ready_responses,
  Enqueued,
}
use oklib.Http.Pipeline.Order.{History, ends, Orderly}
use oklib.Http.Pipeline.Order.Steps.{start, step, run_steps, hands_in, flushes}

-- `write_state` is 0 before the response, 1 in a chunked body, 2 behind the response.
pub record HttpResponseWriter : Type 0 where
  pub sequence : ℕ
  pub close_connection : Bool
  pub include_body : Bool
  pub write_state : ℕ

unfoldable pub new_writer : ℕ → Bool → Bool → HttpResponseWriter
new_writer sequence close_connection include_body = record {
  sequence = sequence;
  close_connection = close_connection;
  include_body = include_body;
  write_state = 0;
}

-- What a call comes to: it returns `false` or `true` at once, or what `enqueue` returns.
pub data Handed : Type 0 where
  refuses : Handed
  does_nothing : Handed
  hands : Enqueued → Handed

abbrev pub closing_response : HttpResponseWriter → HttpResponse → HttpResponse
closing_response w response =
    if w.close_connection then record response { close_connection = true } else response

-- `retrieve_all_as_string` on what has been appended to a new buffer.
abbrev pub rendered : (Buffer → Buffer) → Bytes
rendered append_to = (retrieve_all_as_string (append_to (new_buffer 1024))).0

abbrev hand : HttpResponseWriter → Bytes → Bool → Bool → Handed
hand w bytes finished close_connection = hands (record {
  sequence = w.sequence;
  bytes = bytes;
  finished = finished;
  close_connection = close_connection;
})

unfoldable pub send : HttpResponse → HttpResponseWriter → Handed × HttpResponseWriter
send response w =
    let r = closing_response w response in
    if not (w.write_state == 0) then (refuses, w) else (
      hand w (rendered (append_to_buffer w.include_body r)) true r.close_connection,
      record w { write_state = 2 },
    )

unfoldable pub start_chunked : HttpResponse → HttpResponseWriter → Handed × HttpResponseWriter
start_chunked response w =
    let r = closing_response w response in
    if not (w.write_state == 0) then (refuses, w) else (
      hand w (rendered (append_headers_to_buffer true r)) (not w.include_body) r.close_connection,
      record w { write_state = 1 },
    )

unfoldable pub call_write_chunk : Bytes → HttpResponseWriter → Handed × HttpResponseWriter
call_write_chunk chunk w =
    if not (w.write_state == 1)
    then (refuses, w)
    else if is_empty chunk
    then (does_nothing, w)
    else (hand w (encode_chunk chunk) false w.close_connection, w)

unfoldable pub call_finish : HttpResponseWriter → Handed × HttpResponseWriter
call_finish w =
    if not (w.write_state == 1)
    then (refuses, w)
    else (hand w finish true w.close_connection, record w { write_state = 2 })

pub data WriterCall : Type 0 where
  sends starts_chunked : HttpResponse → WriterCall
  writes_chunk : Bytes → WriterCall
  finishes : WriterCall

unfoldable pub writer_call : WriterCall → HttpResponseWriter → Handed × HttpResponseWriter
writer_call (sends response) w = send response w
writer_call (starts_chunked response) w = start_chunked response w
writer_call (writes_chunk chunk) w = call_write_chunk chunk w
writer_call finishes w = call_finish w

-- What the calls hand in, the newest first, on top of what has been handed in.
abbrev pub handed_in : Handed → History → History
handed_in (hands e) h = e ∷ h
handed_in _ h = h

abbrev pub run_calls : List WriterCall → HttpResponseWriter → History → HttpResponseWriter × History
run_calls [] w h = (w, h)
run_calls (c ∷ cs) w h = let (x, w') = writer_call c w in run_calls cs w' (handed_in x h)

-- The oldest first.
abbrev pub reversed : History → History
reversed [] = []
reversed (e ∷ h) = reversed h ++ e ∷ []

-- A writer whose response is with a body; it has finished only in its last state, and what has been
-- handed in is in order.
record Kept (w : HttpResponseWriter) (h : History) : Type 0 where
  pub with_body : w.include_body ≡ true
  pub last_state : (ends w.sequence h ≡ false) ⊎ (w.write_state ≡ 2)
  pub orderly : Orderly h

call-Kept :
    (c : WriterCall) (w : HttpResponseWriter) (h : History)
    → Kept w h
    → Kept (writer_call c w).1 (handed_in (writer_call c w).0 h)
unfolding writer_call send start_chunked call_write_chunk call_finish
call-Kept (sends r) w h k = ground arith
call-Kept (starts_chunked r) w h k = ground arith
call-Kept (writes_chunk chunk) w h k = ground arith
call-Kept finishes w h k = ground arith

run_calls-Kept :
    (cs : List WriterCall) (w : HttpResponseWriter) (h : History)
    → Kept w h
    → Kept (run_calls cs w h).0 (run_calls cs w h).1
run_calls-Kept [] w h k = k
run_calls-Kept (c ∷ cs) w h k =
    run_calls-Kept cs (writer_call c w).1 (handed_in (writer_call c w).0 h) (call-Kept c w h k)

-- A new writer of a response with a body, whose sequence number has not been finished before.
-- Whatever is called on it, in whatever order, it hands in nothing behind the part that finishes
-- its response.
pub run_calls-Orderly :
    (cs : List WriterCall) (sequence : ℕ) (close_connection : Bool) (h : History)
    → ends sequence h ≡ false
    → Orderly h
    → Orderly (run_calls cs (new_writer sequence close_connection true) h).1
unfolding new_writer
run_calls-Orderly cs sequence close_connection h fresh o =
    (run_calls-Kept cs (new_writer sequence close_connection true) h
      (record { with_body = refl; last_state = inl fresh; orderly = o })).orderly

-- What a flush sends of what the calls of one writer have handed in.
abbrev pub sent_of : List WriterCall → HttpResponseWriter → List Bytes
sent_of cs w = (step flushes (run_steps (map hands_in (reversed (run_calls cs w []).1)) start)).sent

-- A writer of a response without a body, such as the response to a HEAD request: a chunk that is
-- written before the loop flushes goes out all the same, behind the header, although the header has
-- finished the response.
pub chunk_without_body :
    (response : HttpResponse) (x : ℕ) (xs : Bytes) (close_connection : Bool)
    → sent_of
        (starts_chunked response ∷ writes_chunk (x ∷ xs) ∷ [])
        (new_writer 0 close_connection false)
      ≡ rendered (
          append_headers_to_buffer true
            (closing_response (new_writer 0 close_connection false) response))
        ∷ encode_chunk (x ∷ xs)
        ∷ []
unfolding new_writer writer_call start_chunked call_write_chunk is_empty enqueue make_state
    find_pending put_pending flush_ready_responses flush_loop erase_pending
chunk_without_body response x xs close_connection = ground arith
