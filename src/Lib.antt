-- ===== src/Lib.antt =====
-- A verification library for oklib, a C++ networking library in the reactor style. It is about
-- the code that reads and writes bytes: the buffer that sits between a socket and the protocols,
-- the HTTP/1.1 message layer, and the WebSocket handshake and frame layer. A connection appends
-- what it reads to a `Buffer`; a parser takes whole messages or frames off it and leaves what is
-- incomplete; a response or a frame is written back as bytes.
--
-- Common: the names that all modules share, Boolean tests on the native numbers, lists measured by
--   them, and Common/Bits, the bit operations as arithmetic.
-- Buffer: src/net/buffer.cpp and include/oklib/net/buffer.h. The storage is a list of bytes, with
--   the two indices of the class; `contents` is what stands between `peek()` and `begin_write()`.
--   Buffer/Invariant has the order of the indices, Buffer/Contents what each operation does to the
--   unread bytes, Buffer/Crlf the search for the end of a line, Buffer/Refinement a session of
--   calls against a plain byte string. The result of `readv` is an argument.
-- WebSocket: src/websocket/websocket_frame.cpp and its header. Encoder is
--   `encode_websocket_frame`, Parser is `WebSocketFrameParser`, Utf8 is `valid_utf8`, Assembler is
--   `WebSocketMessageAssembler`. Lengths and masks are computed as the source does, with `% 2 ^ w`
--   where a w-bit integer wraps around. The random mask key is an argument.
-- WebSocket/Handshake: src/websocket/websocket_handshake.cpp. The parent has Base64 and SHA-1,
--   whose words are numbers below 2 ^ 32, Upgrade the checks on a request. The words of a block are
--   kept with the newest first.
-- Http/Text, Http/Numbers: the helpers at the top of src/http/http_parser.cpp, with `from_chars`
--   and `to_chars` of the standard library.
-- Http/Headers: src/http/http_headers.cpp. Http/Url: src/http/url_encoding.cpp.
-- Http/Request: src/http/http_request.cpp, and `set_request_target` of the parser.
-- Http/Parser: `HttpParser` of src/http/http_parser.cpp. The parent has its state and `reset`;
--   Lines the start lines and the header lines, Framing the way to find the end of the message
--   (`content_lengths`, `is_chunked_transfer`, `finish_headers`), Body the body, the chunks and the
--   trailers, Loop the loops and the entry points. Progress has the measure of the loops, Runs
--   relates several rounds to a run of the loop, Status relates a status to the parser behind it,
--   Fields and Chunks have the rounds over what was written.
-- Http/Response, Http/Writer: src/http/http_response.cpp with the reason phrases of
--   src/http/http_semantics.cpp, and the chunks of src/http/http_response_writer.cpp.
-- Http/Pipeline: the pending responses of a connection in src/http/http_response_writer.cpp.
--   Handing a part in and flushing are steps, since each is one locked section; Order has the order
--   in which the parts of many writers are sent, Calls the writer itself.
-- Http/Semantics: src/http/http_semantics.cpp. The parent has the methods and the ranges, Tags the
--   entity tags and the conditions on them, Dates the dates, Calendar the calendar that
--   `days_from_civil` is measured by, and Fixdate the texts that are taken as dates.
-- Http/Multipart: src/http/multipart_parser.cpp, with its helpers in Values; Multipart/Streaming is
--   src/http/streaming_multipart_parser.cpp, whose callbacks are the events of a call.
-- Http/Context: src/http/http_context.cpp. It joins the parser, the body stream and the buffer;
--   what the application's callbacks call on the stream is the parameter `react`. Streaming has the
--   rounds of `process_streaming_body`; Progress is about its loops, Delivery about what the
--   callbacks are given, Fixed and Chunked about the two kinds of body, Counts and Limits about the
--   limit. `feed` of Chunked/Whole is the sequence of calls that the server makes as bytes arrive.
-- Http/BodyStream: src/http/http_request_body_stream.cpp. A callback is a name, a call gives
--   those that it runs. EndsOnce is about calls one after another, Threads about the atomic steps
--   of `on_complete` and `on_cancel`, interleaved: a load, an exchange and a locked section are a
--   step.
-- Http/Router: src/http/http_router.cpp, the table of routes and the choice of a handler.
-- Http/Exchange: the two ends together, a response appended on one side and parsed on the other.
--
-- State is passed explicitly: a method takes the object and returns the new one, with its Boolean
-- or status beside it. `set_error` and `return false` are one value. A `string_view` is the list
-- of its bytes, and `npos` is `none`. A `std::map` is the list of its entries in the order of the
-- keys. `tolower` and `isalnum` are those of the C locale.
--
-- Bounds and fuel. Sizes are natural numbers; where the source adds 64-bit numbers that may
-- overflow, the sum is taken modulo 2 ^ 64. The loops of the parsers run on fuel, one more than
-- the unread bytes: each round that goes on takes two bytes at least off the buffer. The loops
-- over commas, chunk extensions and query parts take a character in each round and run on the
-- length of the text. The loops of a streamed body have the unread bytes and two more: a round
-- takes a byte, or leaves a chunk's data with nothing unread. The loops of the multipart parsers
-- have the bytes that are left and one more, since each round takes a boundary or an empty line;
-- that of `update` has the bytes given, since each round takes one; a flush has the pending
-- responses and one more, since each round but the last erases one. `to_chars` has room for the
-- 64 binary digits of a number, and one more.
--
-- Not modelled: sockets, the event loop, timers and threads; TLS and compression, which are calls
-- of other libraries; `format_http_date`, which is `put_time`; the server and the clients, which
-- are glue between connections, timers and callbacks; the caches; the writing of uploaded files;
-- the logging; the examples and the JSON library in third_party. The texts of error messages are
-- left out.
pub mod Buffer
pub mod Common
pub mod Http
pub mod WebSocket
