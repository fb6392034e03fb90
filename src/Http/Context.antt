-- ===== src/Http/Context.antt =====
-- `HttpContext` of src/http/http_context.cpp: the parser of a connection, and the body of a request
-- that is handed to the application while it arrives, which is read by Streaming.
pub mod Streaming
pub mod Progress
pub mod Delivery
pub mod Fixed
pub mod Counts
pub mod Limits
pub mod Chunked
mod Tests
use oklib.Common.{
  ◌==◌, if◌then◌else◌, Bytes, ℕ, ◌+◌, ◌%◌, ◌^◌, Bool, true, false, not, Option, none, some, [], ◌∷◌,
}
use oklib.Buffer.{Buffer}
use oklib.Http.Text.{is_ows, find}
use oklib.Http.Parser.{reset, HttpParser, HttpParseStatus, complete}
use oklib.Http.Parser.Loop.{parse_request, parse_request_head, Parsed}
use oklib.Http.BodyStream.{new_body_stream, BodyStream}

pub data StreamingBodyMode : Type 0 where
  no_mode fixed_length chunked_body : StreamingBodyMode

pub data StreamingChunkState : Type 0 where
  reads_size reads_data reads_data_crlf reads_trailers : StreamingChunkState

pub record HttpContext : Type 0 where
  pub parser : HttpParser
  pub next_response_sequence : ℕ
  pub body_stream : BodyStream
  pub streaming_body_mode : StreamingBodyMode
  pub streaming_chunk_state : StreamingChunkState
  pub streaming_body_remaining : ℕ
  pub streaming_decoded_body_bytes : ℕ
  pub streaming_trailer_bytes : ℕ
  pub streaming_body_active : Bool
  pub peer_ip : Bytes
  pub peer_port : ℕ

unfoldable pub new_context : HttpParser → HttpContext
new_context p = record {
  parser = p;
  next_response_sequence = 0;
  body_stream = new_body_stream;
  streaming_body_mode = no_mode;
  streaming_chunk_state = reads_size;
  streaming_body_remaining = 0;
  streaming_decoded_body_bytes = 0;
  streaming_trailer_bytes = 0;
  streaming_body_active = false;
  peer_ip = [];
  peer_port = 0;
}

abbrev pub k_max_streaming_trailers : ℕ
k_max_streaming_trailers = 65536

abbrev pub k_max_streaming_body : ℕ
k_max_streaming_body = 8388608

unfoldable pub valid_trailer_line : Bytes → Bool
valid_trailer_line [] = false
valid_trailer_line (x ∷ xs) =
    if is_ows x
    then false
    else elim (find b':' (x ∷ xs)) [ none ↦ false | some colon ↦ not (colon == 0) ]

-- What a call of the parser leaves, with the peer's address in a message that is complete.
unfoldable pub put_peer : HttpContext → Parsed → HttpParseStatus × HttpContext × Buffer
put_peer c r = elim r.status [
  | complete ↦ (
    complete,
    record c {
      parser = record (r.parser) {
        req = record (r.parser.req) { peer_ip = c.peer_ip; peer_port = c.peer_port };
      };
    },
    r.buffer,
  )
  | s ↦ (s, record c { parser = r.parser }, r.buffer)
]

unfoldable pub context_parse_request :
    ℕ → HttpContext → Buffer → Option (HttpParseStatus × HttpContext × Buffer)
context_parse_request receive_time c b = elim (parse_request receive_time c.parser b) [
  | none ↦ none
  | some r ↦ some (put_peer c r)
]

unfoldable pub context_parse_request_head :
    ℕ → HttpContext → Buffer → Option (HttpParseStatus × HttpContext × Buffer)
context_parse_request_head receive_time c b = elim (parse_request_head receive_time c.parser b) [
  | none ↦ none
  | some r ↦ some (put_peer c r)
]

unfoldable pub set_peer_address : Bytes → ℕ → HttpContext → HttpContext
set_peer_address ip port c = record c { peer_ip = ip; peer_port = port }

-- The sequence number of the next response; the writer is made with it.
unfoldable pub take_sequence : HttpContext → ℕ × HttpContext
take_sequence c =
    let n = c.next_response_sequence in (n, record c { next_response_sequence = (n + 1) % 2 ^ 64 })

unfoldable pub start_streaming_body : BodyStream → ℕ → HttpContext → HttpContext
start_streaming_body s remaining_bytes c = record c {
  body_stream = s;
  streaming_body_mode = fixed_length;
  streaming_body_remaining = remaining_bytes;
  streaming_body_active = true;
}

unfoldable pub start_streaming_chunked_body : BodyStream → HttpContext → HttpContext
start_streaming_chunked_body s c = record c {
  body_stream = s;
  streaming_body_mode = chunked_body;
  streaming_chunk_state = reads_size;
  streaming_body_remaining = 0;
  streaming_decoded_body_bytes = 0;
  streaming_trailer_bytes = 0;
  streaming_body_active = true;
}

unfoldable pub reset_context : HttpContext → HttpContext
reset_context c = record c {
  parser = reset c.parser;
  streaming_body_mode = no_mode;
  streaming_chunk_state = reads_size;
  streaming_body_remaining = 0;
  streaming_decoded_body_bytes = 0;
  streaming_trailer_bytes = 0;
  streaming_body_active = false;
  body_stream = new_body_stream;
}
