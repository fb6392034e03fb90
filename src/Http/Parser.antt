-- ===== src/Http/Parser.antt =====
-- `HttpParser` of src/http/http_parser.cpp: its state. The operations are in the children.
pub mod Lines
pub mod Framing
pub mod Body
pub mod Loop
pub mod Progress
pub mod Runs
pub mod Fields
pub mod Status
pub mod Chunks
use oklib.Common.{Bytes, ℕ, Bool, true, false, Option, none, some, []}
use oklib.Http.Numbers.{Int32, nonneg}
use oklib.Http.Headers.{HttpHeaders}
use oklib.Http.Request.{new_request, HttpRequest, HttpVersion, unknown}

pub data HttpParserMode : Type 0 where
  request response : HttpParserMode

pub data HttpParseStatus : Type 0 where
  incomplete complete error : HttpParseStatus

pub data HttpParseError : Type 0 where
  no_error bad_start_line bad_header bad_message_framing : HttpParseError
  header_too_large body_too_large : HttpParseError

pub record HttpParserOptions : Type 0 where
  pub max_start_line : ℕ
  pub max_headers : ℕ
  pub max_body : ℕ

pub record HttpResponseMessage : Type 0 where
  pub version : HttpVersion
  pub status_code : Int32
  pub reason_phrase : Bytes
  pub headers : HttpHeaders
  pub trailers : HttpHeaders
  pub body : Bytes
  pub content_length : Option ℕ
  pub chunked : Bool

unfoldable pub new_response : HttpResponseMessage
new_response = record {
  version = unknown;
  status_code = nonneg 0;
  reason_phrase = [];
  headers = [];
  trailers = [];
  body = [];
  content_length = none;
  chunked = false;
}

pub data State : Type 0 where
  start_line headers fixed_body chunk_size chunk_data trailers completed failed : State

pub record HttpParser : Type 0 where
  pub mode : HttpParserMode
  pub options : HttpParserOptions
  pub state : State
  pub last_error : HttpParseError
  pub req : HttpRequest
  pub resp : HttpResponseMessage
  pub header_bytes : ℕ
  pub fixed_body_bytes : ℕ
  pub current_chunk_size : ℕ
  pub decoded_body_bytes : ℕ
  pub chunked : Bool
  pub head_only : Bool

unfoldable pub new_parser : HttpParserMode → HttpParserOptions → HttpParser
new_parser mode options = record {
  mode = mode;
  options = options;
  state = start_line;
  last_error = no_error;
  req = new_request;
  resp = new_response;
  header_bytes = 0;
  fixed_body_bytes = 0;
  current_chunk_size = 0;
  decoded_body_bytes = 0;
  chunked = false;
  head_only = false;
}

unfoldable pub reset : HttpParser → HttpParser
reset p = new_parser p.mode p.options

-- `set_error` and `return false`.
abbrev pub set_error : HttpParseError → HttpParser → Bool × HttpParser
set_error e p = (false, record p { last_error = e; state = failed })

-- `finish_message` and its `true`.
abbrev pub finish_message : HttpParser → Bool × HttpParser
finish_message p = (true, record p { state = completed })

abbrev pub is_request : HttpParser → Bool
is_request p = elim p.mode [ request ↦ true | response ↦ false ]

-- The fields of the message that is being read.
abbrev pub message_headers : HttpParser → HttpHeaders
message_headers p = elim p.mode [ request ↦ p.req.headers | response ↦ p.resp.headers ]

abbrev pub message_trailers : HttpParser → HttpHeaders
message_trailers p = elim p.mode [ request ↦ p.req.trailers | response ↦ p.resp.trailers ]

abbrev pub message_body : HttpParser → Bytes
message_body p = elim p.mode [ request ↦ p.req.body | response ↦ p.resp.body ]

abbrev pub put_headers : HttpHeaders → HttpParser → HttpParser
put_headers hs p = elim p.mode [
  | request ↦ record p { req = record (p.req) { headers = hs } }
  | response ↦ record p { resp = record (p.resp) { headers = hs } }
]

abbrev pub put_trailers : HttpHeaders → HttpParser → HttpParser
put_trailers hs p = elim p.mode [
  | request ↦ record p { req = record (p.req) { trailers = hs } }
  | response ↦ record p { resp = record (p.resp) { trailers = hs } }
]

abbrev pub put_body : Bytes → HttpParser → HttpParser
put_body body p = elim p.mode [
  | request ↦ record p { req = record (p.req) { body = body } }
  | response ↦ record p { resp = record (p.resp) { body = body } }
]

abbrev pub put_content_length : ℕ → HttpParser → HttpParser
put_content_length n p = elim p.mode [
  | request ↦ record p { req = record (p.req) { content_length = some n } }
  | response ↦ record p { resp = record (p.resp) { content_length = some n } }
]
