-- ===== src/Http/Tests.antt =====
-- Runs of the HTTP message layer, and the theorems at concrete inputs.
use oklib.Common.{
  if◌then◌else◌, Bytes, codes, ◌≡◌, refl, ◌↔◌, inl, true, false, ◌||◌, Option, some, List, [], ◌∷◌,
  ◌++◌, arith,
}
use oklib.Buffer.{contents, new_buffer, append, Buffer}
use oklib.Buffer.Invariant.{new_buffer-IsValid, append-IsValid, IsValid}
use oklib.Buffer.Contents.{contents-append}
use oklib.Http.Text.{
  is_ows, is_alnum, is_token_char, to_lower, equal, is_empty, trim_front, trim_back, trim_ows,
  all_token,
}
use oklib.Http.Text.Split.{lacks-Lacks}
use oklib.Http.Numbers.{digit_char, print_digits, to_chars, nonneg}
use oklib.Http.Headers.{HttpHeaders, equals_ignore_case, set, contains, get}
use oklib.Http.Headers.Lookup.{get-set}
use oklib.Http.Request.{
  new_request, method_string, find_scheme, set_request_target, HttpRequest, origin,
}
use oklib.Http.Request.Target.{set_request_target-origin, taken_for, set_request_target-embedded}
use oklib.Http.Response.{
  standard_reason_phrase, to_string, reason_phrase, status_line, connection_field, framing_field,
  append_to_buffer, HttpResponse,
}
use oklib.Http.Response.Rendered.{fields_text}
use oklib.Http.Parser.{
  new_parser, message_body, HttpParserOptions, HttpParser, request, response, complete, chunk_size,
  completed,
}
use oklib.Http.Parser.Framing.{status_code_allows_body, framing}
use oklib.Http.Parser.Framing.Unambiguous.{IsFramed, framing_iff}
use oklib.Http.Parser.Loop.{
  parse, parse_request, parse_request_head, parse_response, parse_response_head, Parsed,
}
use oklib.Http.Parser.Status.{IsStatusOf}
use oklib.Http.Parser.Status.Returned.{parse_request-IsStatusOf}
use oklib.Http.Parser.Progress.{Shrunk, parse_request_total}
use oklib.Http.Parser.Chunks.RoundTrip.{written, parse-written}
use oklib.Http.Url.Decode.{Piece, raw, percent_escape}
use oklib.Http.Router.{
  to_upper, uppercase, find_route, is_listed, collect_methods, allowed_methods, put_route,
  add_streaming, refusal, streaming_callback, Route, handled_by, method_not_allowed, not_found,
}
use oklib.Http.Router.Table.{find_route-add_streaming}
use oklib.Http.Router.Choices.{IsChoice, streaming_callback-IsChoice}
use oklib.Http.Exchange.{IsSendable}
use oklib.Http.Exchange.Body.{received_message}
use oklib.Http.Exchange.RoundTrip.{parse_response-append}

abbrev limits : HttpParserOptions
limits = record { max_start_line = 100; max_headers = 200; max_body = 50 }

abbrev received_bytes : Bytes → Buffer
received_bytes bytes = append bytes (new_buffer 16)

received_bytes-IsValid : (bytes : Bytes) → IsValid (received_bytes bytes)
received_bytes-IsValid bytes = append-IsValid bytes (new_buffer 16) (new_buffer-IsValid 16)

contents-received : (bytes : Bytes) → contents (received_bytes bytes) ≡ bytes
unfolding contents new_buffer
contents-received bytes = contents-append bytes (new_buffer 16) (new_buffer-IsValid 16)

abbrev fields : HttpHeaders
fields = record { field = codes "Host"; value = codes "a" } ∷ []

get-set_example :
    (get (codes "hOST") (set (codes "Host") (codes " b ") fields) ≡ (
      if equals_ignore_case (codes "Host") (codes "hOST")
      then trim_ows (codes " b ")
      else get (codes "hOST") fields))
    × (contains (codes "hOST") (set (codes "Host") (codes " b ") fields)
        ≡ equals_ignore_case (codes "Host") (codes "hOST") || contains (codes "hOST") fields)
unfolding trim_ows trim_front trim_back is_ows is_empty
get-set_example = get-set (codes "Host") (codes " b ") (codes "hOST") fields refl

abbrev request_bytes : Bytes
request_bytes = codes "GET /a?b HTTP/1.1\r\nHost: x\r\n\r\n"

abbrev Gives : Option Parsed → Buffer → Type 0
Gives o b = (r : Parsed) × (o ≡ some r) × Shrunk b r.buffer

parse_request_total_example :
    Gives
      (parse_request 7 (new_parser request limits) (received_bytes request_bytes))
      (received_bytes request_bytes)
    × Gives
        (parse_request_head 7 (new_parser request limits) (received_bytes request_bytes))
        (received_bytes request_bytes)
    × Gives
        (parse_response (new_parser request limits) (received_bytes request_bytes))
        (received_bytes request_bytes)
    × Gives
        (parse_response_head (new_parser request limits) (received_bytes request_bytes))
        (received_bytes request_bytes)
parse_request_total_example =
    parse_request_total 7 (new_parser request limits) (received_bytes request_bytes)
      (received_bytes-IsValid request_bytes)

parse_request-IsStatusOf_example :
    ((r : Parsed) × (parse_request 7 (new_parser request limits) (received_bytes request_bytes)
        ≡ some r)
      × IsStatusOf r.status r.parser)
    × ((r : Parsed) × (parse_response (new_parser request limits) (received_bytes request_bytes)
          ≡ some r)
        × IsStatusOf r.status r.parser)
unfolding new_parser
parse_request-IsStatusOf_example =
    parse_request-IsStatusOf 7 (new_parser request limits) (received_bytes request_bytes)
      (received_bytes-IsValid request_bytes) (inl (refl, (λ e. cc), refl))

abbrev chunked_parser : HttpParser
chunked_parser = record (new_parser request limits) { state = chunk_size }

abbrev chunks : List Bytes
chunks = codes "abc" ∷ [] ∷ codes "defgh" ∷ []

parse-written_example :
    (q : HttpParser) × (c : Buffer) × (parse 7 chunked_parser
        (received_bytes (written chunks ++ codes "GET"))
      ≡ some (record { status = complete; parser = q; buffer = c }))
    × (message_body q ≡ codes "abcdefgh")
    × (q.state ≡ completed)
    × (contents c ≡ codes "GET")
unfolding new_parser new_request
parse-written_example =
    parse-written 7 chunked_parser (received_bytes (written chunks ++ codes "GET")) chunks
      (codes "GET") (received_bytes-IsValid (written chunks ++ codes "GET")) refl
      (contents-received (written chunks ++ codes "GET")) (omega arith) (omega arith)

framing_iff_example :
    (framing (record { field = codes "content-length"; value = codes "12" } ∷ [])
      ≡ some (some 12, false))
    ↔ IsFramed (record { field = codes "content-length"; value = codes "12" } ∷ []) (some 12) false
framing_iff_example =
    framing_iff (record { field = codes "content-length"; value = codes "12" } ∷ []) (some 12) false

set_request_target-origin_example :
    set_request_target (codes "/a/b?c=d?e") new_request ≡ record new_request {
      target = codes "/a/b?c=d?e";
      target_form = origin;
      path = codes "/a/b";
      query = codes "c=d?e";
    }
unfolding find_scheme
set_request_target-origin_example =
    set_request_target-origin (codes "a/b") (codes "c=d?e") new_request
      (lacks-Lacks b'?' (codes "a/b") refl) refl

set_request_target-embedded_example :
    (set_request_target (codes "/login?next=http://x/admin?y=1") new_request
      ≡ taken_for
          (codes "/login?next=http://x/admin?y=1")
          (codes "/admin")
          (codes "y=1")
          new_request)
    × (set_request_target (codes "/login?next=http://x/admin") new_request
        ≡ taken_for (codes "/login?next=http://x/admin") (codes "/admin") [] new_request)
    × (set_request_target (codes "/login?next=http://x") new_request
        ≡ taken_for (codes "/login?next=http://x") (codes "/") [] new_request)
set_request_target-embedded_example =
    set_request_target-embedded (codes "login?next=http") (codes "x") (codes "admin") (codes "y=1")
      new_request (lacks-Lacks b':' (codes "login?next=http") refl)
      (lacks-Lacks b'/' (codes "x") refl) (lacks-Lacks b'?' (codes "admin") refl)

abbrev page : HttpResponse
page = record {
  status_code = nonneg 200;
  status_message = [];
  close_connection = true;
  headers = (codes "X-A", codes "b ") ∷ [];
  body = codes "hello";
}

page-IsSendable : IsSendable page
unfolding reason_phrase standard_reason_phrase is_empty all_token is_token_char is_alnum
    equals_ignore_case to_lower
page-IsSendable = record {
  code = 200;
  status = refl;
  low = omega arith;
  high = omega arith;
  reason = lacks-Lacks b'\r' (codes "OK") refl;
  fields = (record { named = refl; token = refl; no_cr = lacks-Lacks b'\r' (codes "b ") refl }, tt);
  unframed = ((refl, refl), tt);
}

abbrev page_bytes : Bytes
page_bytes = contents (append_to_buffer true page (new_buffer 16)) ++ codes "HTTP"

parse_response-append_example :
    (q : HttpParser) × (c : Buffer) × (parse_response
        (new_parser response limits)
        (received_bytes page_bytes)
      ≡ some (record { status = complete; parser = q; buffer = c }))
    × (q.resp ≡ received_message page)
    × (contents c ≡ codes "HTTP")
unfolding contents new_buffer status_line to_string to_chars print_digits digit_char reason_phrase
    standard_reason_phrase is_empty fields_text connection_field framing_field
    status_code_allows_body
parse_response-append_example =
    parse_response-append limits page (new_buffer 16) (received_bytes page_bytes) (codes "HTTP")
      (new_buffer-IsValid 16) refl (received_bytes-IsValid page_bytes)
      (contents-received page_bytes) page-IsSendable (omega arith) (omega arith) (omega arith)
      (omega arith)

abbrev routes : List Route
routes = add_streaming (codes "post") (codes "/a") 2 (add_streaming (codes "get") (codes "/a") 1 [])

abbrev asks : Bytes → Bytes → HttpRequest
asks method path = record new_request { method_token = method; path = path }

routes_choose :
    (streaming_callback routes (asks (codes "get") (codes "/a")) ≡ handled_by 1)
    × (streaming_callback routes (asks (codes "PUT") (codes "/a"))
        ≡ method_not_allowed (codes "GET" ∷ codes "POST" ∷ []))
    × (streaming_callback routes (asks (codes "GET") (codes "/b")) ≡ not_found)
unfolding streaming_callback refusal find_route allowed_methods collect_methods is_listed
    add_streaming put_route uppercase to_upper equal method_string is_empty
routes_choose = (refl, refl, refl)

find_route-add_streaming_example :
    find_route (codes "GET") (codes "/a") (add_streaming (codes "get") (codes "/a") 3 routes)
    ≡ some 3
unfolding uppercase to_upper equal
find_route-add_streaming_example =
    find_route-add_streaming (codes "GET") (codes "/a") (codes "get") (codes "/a") 3 routes

streaming_callback-IsChoice_example :
    IsChoice routes
      (uppercase (method_string (asks (codes "PUT") (codes "/a"))))
      (codes "/a")
      (streaming_callback routes (asks (codes "PUT") (codes "/a")))
streaming_callback-IsChoice_example =
    streaming_callback-IsChoice routes (asks (codes "PUT") (codes "/a"))

abbrev pieces : List Piece
pieces = raw b'a' ∷ raw b'+' ∷ percent_escape 0x2B ∷ percent_escape 0xFF ∷ []
