-- ===== src/Http/Multipart/Tests.antt =====
-- Runs of the multipart parsers at fixed inputs.
use oklib.Common.{Bytes, codes, ◌≡◌, refl, true, false, some, List, [], ◌∷◌, ◌++◌, arith}
use oklib.Http.Text.{
  is_ows, to_lower, lowercase, equal, is_empty, find, trim_front, trim_back, trim_ows,
}
use oklib.Http.Headers.{equals_ignore_case, add, find_entry, get}
use oklib.Http.Url.{plain, url_decode}
use oklib.Http.Multipart.Values.{
  starts_with, find_text, unquote_inside, unquote, split_parameters, parameters, parsed_parts,
  parse_header_value, parameter_value, decoded_parameter_value, decoded_filename_value,
  add_part_line, crlf, part_lines, parse_part_headers,
}
use oklib.Http.Multipart.{
  part_of, begin_part, multipart_boundary, parse_multipart_form_data, MultipartPart,
  MultipartParseOptions, parsed,
}
use oklib.Http.Multipart.Whole.{rendered, parse_multipart-rendered, Sent, CanBeSent}
use oklib.Http.Multipart.Streaming.{
  is_file, new_streaming_parser, process_body, StreamingOptions, StreamingParser, Processing,
  in_body, boundary_suffix,
}
use oklib.Http.Multipart.Streaming.Ends.{after, is_done}
use oklib.Http.Multipart.Streaming.Calls.{
  stream_calls, stream_calls-after, StreamCall, appends, finishes,
}
use oklib.Http.Multipart.Streaming.Findings.{process_body-over_limit}

abbrev limits : MultipartParseOptions
limits = record { max_body_bytes = 1000; max_header_bytes = 100; max_parts = 2 }

abbrev block : Bytes
block = codes "Content-Disposition: form-data; name=\"a\""

abbrev field_part : MultipartPart
field_part = record {
  headers =
      record { field = codes "Content-Disposition"; value = codes "form-data; name=\"a\"" } ∷ [];
  name = codes "a";
  filename = [];
  content_type = [];
  body = codes "1\r\n2";
}

abbrev sent_part : Sent
sent_part = record { block = block; part = field_part }

abbrev marker : Bytes
marker = codes "--" ++ codes "xyz"

abbrev delimiter : Bytes
delimiter = crlf ++ marker

boundary_found : multipart_boundary (codes "multipart/form-data; boundary=xyz") ≡ some (codes "xyz")
unfolding multipart_boundary parse_header_value split_parameters parsed_parts parameters
    parameter_value unquote unquote_inside trim_ows trim_front trim_back is_ows is_empty equal find
    lowercase to_lower
boundary_found = refl

sent_part-CanBeSent : CanBeSent limits delimiter sent_part
unfolding begin_part parse_part_headers part_lines add_part_line add part_of get find_entry
    equals_ignore_case parse_header_value split_parameters parsed_parts parameters parameter_value
    decoded_parameter_value decoded_filename_value url_decode unquote unquote_inside trim_ows
    trim_front trim_back is_ows is_empty equal find lowercase to_lower find_text starts_with plain
sent_part-CanBeSent = record { gives = refl; block_ends = refl; body_ends = refl }

parse_multipart-rendered_example :
    parse_multipart_form_data
      (codes "multipart/form-data; boundary=xyz")
      ((codes "--" ++ codes "xyz")
        ++ rendered delimiter (sent_part ∷ sent_part ∷ []) (codes "\r\n"))
      limits
    ≡ some (parsed (field_part ∷ field_part ∷ []))
parse_multipart-rendered_example =
    parse_multipart-rendered (codes "multipart/form-data; boundary=xyz") (codes "xyz")
      (codes "\r\n") limits (sent_part ∷ sent_part ∷ []) boundary_found
      (sent_part-CanBeSent, (sent_part-CanBeSent, tt)) (omega arith) (omega arith)

abbrev stream_limits : StreamingOptions
stream_limits = record { max_header_bytes = 100; max_field_bytes = 3 }

abbrev calls : List StreamCall
calls =
    appends (codes "--xyz\r\nContent-Disposition: form-data; name=\"f\"; filename=\"g\"\r\n\r")
    ∷ appends (codes "\nabc\r\n--x")
    ∷ appends (codes "yz--")
    ∷ appends (codes "\r\n")
    ∷ finishes
    ∷ []

stream_calls-after_example :
    (r : Processing) × (stream_calls calls (new_streaming_parser (codes "xyz") stream_limits)
      ≡ some r)
    × (after false r.events ≡ some (is_done r.parser.state))
stream_calls-after_example = stream_calls-after (codes "xyz") stream_limits calls

abbrev long_field : StreamingParser
long_field = record {
  marker = marker;
  delimiter = delimiter;
  options = stream_limits;
  state = in_body;
  current_part = record { headers = []; name = codes "a"; filename = []; content_type = [] };
  buffer = codes "12345" ++ (delimiter ++ codes "--");
  current_field_bytes = 0;
  completed_callback_called = false;
  error_seen = false;
}

process_body-over_limit_example :
    ((process_body long_field).result ≡ true)
    × ((process_body long_field).parser.error_seen ≡ true)
    × ((process_body long_field).parser.state ≡ boundary_suffix)
    × ((process_body long_field).parser.buffer ≡ codes "--")
unfolding is_file is_empty find_text starts_with
process_body-over_limit_example =
    process_body-over_limit long_field (codes "12345") (codes "--") refl refl (omega arith) refl
      (omega arith) (omega arith) (omega arith)
