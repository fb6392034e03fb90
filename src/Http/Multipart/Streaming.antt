-- ===== src/Http/Multipart/Streaming.antt =====
-- `StreamingMultipartParser` of src/http/streaming_multipart_parser.cpp. Its three callbacks are
-- set; a call gives the events that they are run with, in their order.
pub mod Total
pub mod Ends
pub mod Calls
pub mod Findings
use oklib.Common.{
  ltb, leb, if◌then◌else◌, length, take, drop, Bytes, codes, ℕ, zero, suc, ◌+◌, ◌-◌, ◌%◌, ◌^◌, min,
  Bool, true, false, not, Option, none, some, List, [], ◌∷◌, ◌++◌,
}
use oklib.Http.Text.{equal, is_empty}
use oklib.Http.Headers.{HttpHeaders, get}
use oklib.Http.Multipart.Values.{
  starts_with, find_text, parse_header_value, decoded_parameter_value, decoded_filename_value, crlf,
  parse_part_headers,
}
use oklib.Http.Multipart.{double_crlf}

pub record StreamingMultipartPart : Type 0 where
  pub headers : HttpHeaders
  pub name : Bytes
  pub filename : Bytes
  pub content_type : Bytes

unfoldable pub is_file : StreamingMultipartPart → Bool
is_file part = not (is_empty part.filename)

pub record StreamingOptions : Type 0 where
  pub max_header_bytes : ℕ
  pub max_field_bytes : ℕ

pub data StreamingState : Type 0 where
  first_boundary in_headers in_body boundary_suffix done in_error : StreamingState

-- `error_seen` says that the error message is not empty.
pub record StreamingParser : Type 0 where
  pub marker : Bytes
  pub delimiter : Bytes
  pub options : StreamingOptions
  pub state : StreamingState
  pub current_part : StreamingMultipartPart
  pub buffer : Bytes
  pub current_field_bytes : ℕ
  pub completed_callback_called : Bool
  pub error_seen : Bool

pub data StreamEvent : Type 0 where
  part_event : StreamingMultipartPart → StreamEvent
  chunk_event : Bytes → StreamEvent
  complete_event : StreamEvent

-- What a call returns, the events, and the parser behind it.
pub record Processing : Type 0 where
  pub result : Bool
  pub events : List StreamEvent
  pub parser : StreamingParser

abbrev pub gives : Bool → List StreamEvent → StreamingParser → Processing
gives b es p = record { result = b; events = es; parser = p }

abbrev pub failed : StreamingParser → StreamingParser
failed p = record p { state = in_error; error_seen = true }

-- `return fail(...)`.
abbrev pub fails : StreamingParser → Processing
fails p = gives false [] (failed p)

unfoldable pub new_streaming_parser : Bytes → StreamingOptions → StreamingParser
new_streaming_parser boundary options =
    let p : StreamingParser = record {
      marker = codes "--" ++ boundary;
      delimiter = crlf ++ (codes "--" ++ boundary);
      options = options;
      state = first_boundary;
      current_part = record { headers = []; name = []; filename = []; content_type = [] };
      buffer = [];
      current_field_bytes = 0;
      completed_callback_called = false;
      error_seen = false;
    } in
    if is_empty boundary then failed p else p

unfoldable pub complete_once : StreamingParser → List StreamEvent × StreamingParser
complete_once p =
    if p.completed_callback_called
    then ([], p)
    else (complete_event ∷ [], record p { completed_callback_called = true })

-- The count is a `size_t`.
unfoldable pub emit_data : Bytes → StreamingParser → List StreamEvent × StreamingParser
emit_data chunk p =
    let counted : StreamingParser = record p {
      current_field_bytes = (p.current_field_bytes + length chunk) % 2 ^ 64;
    } in
    if is_empty chunk
    then ([], p)
    else if is_file p.current_part
    then (chunk_event chunk ∷ [], p)
    else if ltb p.options.max_field_bytes counted.current_field_bytes
    then ([], failed counted)
    else ([], counted)

-- `state_ = State::done`, and the rest of the last boundary's line.
unfoldable pub end_body : Bytes → StreamingParser → Processing
end_body rest p =
    let left = if starts_with rest crlf then drop 2 rest else rest in
    let (es, ended) = complete_once (record p { buffer = left; state = done }) in
    gives true es ended

unfoldable pub process_boundary_suffix : StreamingParser → Processing
process_boundary_suffix p =
    if ltb (length p.buffer) 2
    then gives false [] p
    else if starts_with p.buffer (codes "--")
    then end_body (drop 2 p.buffer) p
    else if starts_with p.buffer crlf
    then gives true [] (record p { buffer = drop 2 p.buffer; state = in_headers })
    else fails p

unfoldable pub process_first_boundary : StreamingParser → Processing
process_first_boundary p =
    if ltb (length p.buffer) (length p.marker + 2)
    then gives false [] p
    else if not (starts_with p.buffer p.marker)
    then fails p
    else process_boundary_suffix (record p { buffer = drop (length p.marker) p.buffer })

-- The part of these headers, if its disposition is `form-data`.
unfoldable pub streaming_part : HttpHeaders → Option StreamingMultipartPart
streaming_part hs =
    let disposition = parse_header_value (get (codes "Content-Disposition") hs) in
    if not (equal disposition.token (codes "form-data"))
    then none
    else some (record {
      headers = hs;
      name = decoded_parameter_value disposition (codes "name");
      filename = decoded_filename_value disposition;
      content_type = get (codes "Content-Type") hs;
    })

abbrev pub part_in : Option HttpHeaders → Option StreamingMultipartPart
part_in none = none
part_in (some hs) = streaming_part hs

unfoldable pub begin_streaming_part :
    ℕ → Option StreamingMultipartPart → StreamingParser → Processing
begin_streaming_part header_end none p = fails p
begin_streaming_part header_end (some part) p = gives true (part_event part ∷ []) (record p {
  current_part = part;
  current_field_bytes = 0;
  buffer = drop (header_end + 4) p.buffer;
  state = in_body;
})

unfoldable pub process_headers : StreamingParser → Processing
process_headers p = elim (find_text double_crlf p.buffer) [
  | none ↦ if ltb p.options.max_header_bytes (length p.buffer) then fails p else gives false [] p
  | some header_end ↦
      if ltb p.options.max_header_bytes header_end
      then fails p
      else begin_streaming_part header_end (part_in (parse_part_headers (take header_end p.buffer)))
          p
]

-- No delimiter yet: all but what may be the front of one goes out.
unfoldable pub emit_front : StreamingParser → Processing
emit_front p =
    let keep = min (length p.buffer) (length p.delimiter - 1) in
    let n = length p.buffer - keep in
    let (es, q) = emit_data (take n p.buffer) p in
    if leb (length p.buffer) keep
    then gives false [] p
    else gives false es (record q { buffer = drop n q.buffer })

-- The state is set whatever `emit_data` has set it to.
unfoldable pub end_part : ℕ → StreamingParser → Processing
end_part n p =
    let (es, q) = emit_data (take n p.buffer) p in
    gives true es
      (record q { buffer = drop (n + length q.delimiter) q.buffer; state = boundary_suffix })

unfoldable pub process_body : StreamingParser → Processing
process_body p = elim (find_text p.delimiter p.buffer) [
  | none ↦ emit_front p
  | some delimiter_position ↦ end_part delimiter_position p
]

-- The call that the switch of `process` makes; in its last two cases the loop returns.
unfoldable pub process_in : StreamingState → StreamingParser → Processing
process_in first_boundary p = process_first_boundary p
process_in in_headers p = process_headers p
process_in in_body p = process_body p
process_in boundary_suffix p = process_boundary_suffix p
process_in done p = gives false [] p
process_in in_error p = gives false [] p

abbrev pub is_in_error : StreamingParser → Bool
is_in_error p = elim p.state [ in_error ↦ true | _ ↦ false ]

-- Where the loop returns: `complete_once` where the parser is done.
unfoldable pub leaves : StreamingParser → Processing
leaves p = elim p.state [
  | done ↦ let (es, q) = complete_once p in gives true es q
  | _ ↦ gives (not (is_in_error p)) [] p
]

abbrev pub behind_events : List StreamEvent → Option Processing → Option Processing
behind_events es none = none
behind_events es (some r) = some (record r { events = es ++ r.events })

-- The loop. Every round that goes on takes a byte at least; `none` says that the fuel ran out.
unfoldable pub process_loop : ℕ → StreamingParser → Option Processing
process_loop zero p = none
process_loop (suc fuel) p =
    let r = process_in p.state p in
    let more = process_loop fuel r.parser in
    let last = leaves r.parser in
    if r.result
    then behind_events r.events more
    else some (record last { events = r.events ++ last.events })

unfoldable pub process : StreamingParser → Option Processing
process p = process_loop (suc (length p.buffer)) p

unfoldable pub append_data : Bytes → StreamingParser → Option Processing
append_data bytes p = elim p.state [
  | done ↦ some (gives (is_empty bytes) [] p)
  | in_error ↦ some (gives false [] p)
  | _ ↦ process (record p { buffer = p.buffer ++ bytes })
]

-- What `finish` does behind `process`.
unfoldable pub finish_processed : Processing → Processing
finish_processed r = if not r.result then record r { result = false } else elim r.parser.state [
  | done ↦ let (es, q) = complete_once r.parser in gives true (r.events ++ es) q
  | _ ↦ gives false r.events (failed r.parser)
]

unfoldable pub finish_stream : StreamingParser → Option Processing
finish_stream p = elim (process p) [ none ↦ none | some r ↦ some (finish_processed r) ]
