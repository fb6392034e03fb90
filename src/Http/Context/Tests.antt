-- ===== src/Http/Context/Tests.antt =====
-- Runs of the context at fixed inputs.
use oklib.Http.Text.{is_ows, is_empty, find, trim_front, trim_back, trim_ows}
use oklib.Http.Numbers.{digit_value, read_digits, from_chars_u64, parse_hex_u64}
use oklib.Common.{
  length, All, Bytes, codes, ◌+◌, ◌≤◌, ◌≡◌, refl, false, Option, none, some, List, [], ◌∷◌, ◌++◌,
}
use oklib.Buffer.{
  readable_bytes, contents, new_buffer, write_at, resize, search_crlf, find_crlf, retrieve_all,
  retrieve, retrieve_until, make_space, ensure_writable_bytes, has_written, put_bytes, append,
  Buffer,
}
use oklib.Http.Parser.{new_parser, request, HttpParseStatus, complete}
use oklib.Http.BodyStream.{
  pause_reading, resume_reading, on_data, on_complete, call, run, BodyStream, Event, data_event,
  complete_event, cancel_event, pause_event, resume_event, Call, pauses, resumes,
}
use oklib.Http.Context.{
  new_context, k_max_streaming_body, start_streaming_body, start_streaming_chunked_body,
  HttpContext,
}
use oklib.Http.Context.Streaming.{
  answer, stream_line_size, stream_begin_chunk, stream_size_round, stream_data_round,
  stream_crlf_round, stream_trailer_line, stream_trailers_round, stream_round_in, stream_loop,
  process_streaming_body, Processed,
}
use oklib.Http.Context.Delivery.{data_of, IsFlow, Flows, Listening}
use oklib.Http.Context.Chunked.Whole.{feed}
use oklib.Buffer.Invariant.{new_buffer-IsValid, append-IsValid, IsValid}
use oklib.Http.Context.Progress.{process_streaming_body_total}
use oklib.Http.Context.Fixed.{process-fixed, Ending}
use oklib.Http.Context.Limits.{feed_limit}

-- A stream with a data callback that pauses the reading and resumes it.
abbrev listening_stream : BodyStream
listening_stream = record {
  data_callback = some 1;
  complete_callback = some 2;
  cancel_callback = none;
  pause_callback = some 3;
  resume_callback = some 4;
  completed = false;
  canceled = false;
  reading_paused = false;
}

abbrev stream_listens : Listening listening_stream
stream_listens = record { listener = 1; listens = refl; not_canceled = refl; not_completed = refl }

-- A data callback that pauses the reading; nothing else does anything.
abbrev pausing : Event → List Call
pausing (data_event f chunk) = pauses ∷ []
pausing _ = []

abbrev pausing_flows : Flows pausing
pausing_flows = flows
  where
    flows : (e : Event) → All IsFlow (pausing e)
    flows (data_event f chunk) = (tt, tt)
    flows (complete_event f) = tt
    flows (cancel_event f) = tt
    flows (pause_event f) = tt
    flows (resume_event f) = tt

abbrev flowing : Event → List Call
flowing (data_event f chunk) = pauses ∷ resumes ∷ []
flowing _ = []

abbrev flowing_flows : Flows flowing
flowing_flows = flows
  where
    flows : (e : Event) → All IsFlow (flowing e)
    flows (data_event f chunk) = (tt, (tt, tt))
    flows (complete_event f) = tt
    flows (cancel_event f) = tt
    flows (pause_event f) = tt
    flows (resume_event f) = tt

abbrev context : HttpContext
context =
    new_context
      (new_parser request (record { max_start_line = 100; max_headers = 100; max_body = 100 }))

abbrev pieces : List Bytes
pieces = codes "3\r\nab" ∷ codes "c\r" ∷ codes "\n0\r\n\r" ∷ codes "\nGET" ∷ []

-- What a run has done.
abbrev summary : Option Processed → Option (HttpParseStatus × List Event × Bytes)
summary none = none
summary (some r) = some (r.status, r.events, contents r.buffer)

feed_all :
    summary
      (feed flowing pieces (start_streaming_chunked_body listening_stream context) (new_buffer 16))
    ≡ some (
      complete,
      data_event 1 (codes "ab")
          ∷ pause_event 3
          ∷ resume_event 4
          ∷ data_event 1 (codes "c")
          ∷ pause_event 3
          ∷ resume_event 4
          ∷ complete_event 2
          ∷ [],
      codes "GET",
    )
unfolding feed process_streaming_body stream_loop stream_round_in stream_size_round
    stream_begin_chunk stream_data_round stream_crlf_round stream_trailers_round stream_trailer_line
    answer run call pause_reading resume_reading on_data on_complete start_streaming_chunked_body
    new_context new_parser new_buffer append put_bytes ensure_writable_bytes make_space has_written
    write_at contents find_crlf search_crlf retrieve retrieve_all retrieve_until stream_line_size
    parse_hex_u64 from_chars_u64 read_digits digit_value trim_ows trim_front trim_back is_ows
    is_empty find resize
feed_all = refl

process_streaming_body_total_example :
    (r : Processed) × (process_streaming_body pausing
        (start_streaming_body listening_stream 3 context)
        (new_buffer 16)
      ≡ some r)
    × IsValid r.buffer
    × (readable_bytes r.buffer ≤ readable_bytes (new_buffer 16))
process_streaming_body_total_example =
    process_streaming_body_total pausing (start_streaming_body listening_stream 3 context)
      (new_buffer 16) (new_buffer-IsValid 16)

abbrev received_body : Buffer
received_body = append (codes "abcdGET") (new_buffer 16)

process-fixed_example :
    (r : Processed) × (process_streaming_body pausing
        (start_streaming_body listening_stream 4 context)
        received_body
      ≡ some r)
    × (data_of r.events ++ contents r.buffer ≡ contents received_body)
    × (length (data_of r.events) + r.context.streaming_body_remaining ≡ 4)
    × Ending r.status r.context r.buffer
unfolding start_streaming_body
process-fixed_example =
    process-fixed pausing (start_streaming_body listening_stream 4 context) received_body
      pausing_flows stream_listens
      (append-IsValid (codes "abcdGET") (new_buffer 16) (new_buffer-IsValid 16)) refl

feed_limit_example :
    (r : Processed) × (feed pausing
        (codes "5;x\r\nabc" ∷ codes "zz" ∷ codes "??" ∷ [])
        (start_streaming_chunked_body listening_stream context)
        (new_buffer 16)
      ≡ some r)
    × (length (data_of r.events) ≡ r.context.streaming_decoded_body_bytes)
    × (length (data_of r.events) ≤ k_max_streaming_body)
feed_limit_example =
    feed_limit pausing listening_stream context (new_buffer 16)
      (codes "5;x\r\nabc" ∷ codes "zz" ∷ codes "??" ∷ []) pausing_flows stream_listens
      (new_buffer-IsValid 16)
