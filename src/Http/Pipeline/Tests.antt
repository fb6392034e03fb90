-- ===== src/Http/Pipeline/Tests.antt =====
-- Runs of the pipeline at fixed inputs.
use oklib.Common.{Bytes, codes, ℕ, ◌≡◌, refl, Bool, true, false, List, [], ◌∷◌}
use oklib.Http.Response.{new_http_response, append_headers_to_buffer, HttpResponse}
use oklib.Http.Writer.{encode_chunk}
use oklib.Http.Pipeline.{
  make_state, find_pending, put_pending, erase_pending, enqueue, flush_loop, flush_ready_responses,
}
use oklib.Http.Pipeline.Order.{Orderly, InOrder}
use oklib.Http.Pipeline.Order.Steps.{
  start, step, run_steps, flush-InOrder, PipelineStep, hands_in, flushes,
}
use oklib.Http.Pipeline.Calls.{
  new_writer, closing_response, rendered, run_calls, run_calls-Orderly, sent_of, chunk_without_body,
  sends, starts_chunked, writes_chunk, finishes,
}

abbrev part : ℕ → Bytes → Bool → Bool → PipelineStep
part i bytes finished close_connection = hands_in (record {
  sequence = i;
  bytes = bytes;
  finished = finished;
  close_connection = close_connection;
})

-- The second response is there first.
abbrev out_of_order : List PipelineStep
out_of_order =
    part 1 (codes "b") true false
    ∷ flushes
    ∷ part 0 (codes "a1") false false
    ∷ flushes
    ∷ part 2 (codes "c") false true
    ∷ part 0 (codes "a2") true false
    ∷ []

sent_in_order :
    (step flushes (run_steps out_of_order start)).sent
    ≡ codes "a1" ∷ codes "a2" ∷ codes "b" ∷ codes "c" ∷ []
unfolding enqueue make_state find_pending put_pending flush_ready_responses flush_loop erase_pending
sent_in_order = refl

flush-InOrder_example :
    InOrder
      (run_steps out_of_order start).history
      0
      (step flushes (run_steps out_of_order start)).sent
unfolding enqueue make_state find_pending put_pending flush_ready_responses flush_loop erase_pending
flush-InOrder_example = flush-InOrder out_of_order (refl, (refl, (refl, (refl, tt))))

abbrev response : HttpResponse
response = new_http_response false

run_calls-Orderly_example :
    Orderly
      (run_calls
        (starts_chunked response ∷ writes_chunk (codes "x") ∷ finishes ∷ sends response ∷ [])
        (new_writer 3 false true)
        []).1
run_calls-Orderly_example =
    run_calls-Orderly
      (starts_chunked response ∷ writes_chunk (codes "x") ∷ finishes ∷ sends response ∷ []) 3 false
      [] refl tt

chunk_without_body_example :
    sent_of (starts_chunked response ∷ writes_chunk (codes "x") ∷ []) (new_writer 0 false false)
    ≡ rendered
        (append_headers_to_buffer true (closing_response (new_writer 0 false false) response))
      ∷ encode_chunk (codes "x")
      ∷ []
chunk_without_body_example = chunk_without_body response b'x' [] false
