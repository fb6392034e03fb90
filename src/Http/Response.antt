-- ===== src/Http/Response.antt =====
-- include/oklib/http/http_response.h and src/http/http_response.cpp, with the reason phrases of
-- src/http/http_semantics.cpp.
pub mod Rendered
use oklib.Common.{
  ltb, ◌==◌, if◌then◌else◌, length, Bytes, codes, ℕ, Bool, true, false, not, ◌&&◌, ◌||◌, List, [],
  ◌∷◌, ◌++◌,
}
use oklib.Buffer.{append, Buffer}
use oklib.Http.Text.{equal, is_empty}
use oklib.Http.Numbers.{to_chars, Int32, nonneg, negative}
use oklib.Http.Parser.Framing.{status_code_allows_body}

-- `k_statuses`.
abbrev pub k_statuses : List (ℕ × Bytes)
k_statuses =
    (100, codes "Continue")
    ∷ (101, codes "Switching Protocols")
    ∷ (102, codes "Processing")
    ∷ (103, codes "Early Hints")
    ∷ (200, codes "OK")
    ∷ (201, codes "Created")
    ∷ (202, codes "Accepted")
    ∷ (203, codes "Non-Authoritative Information")
    ∷ (204, codes "No Content")
    ∷ (205, codes "Reset Content")
    ∷ (206, codes "Partial Content")
    ∷ (207, codes "Multi-Status")
    ∷ (208, codes "Already Reported")
    ∷ (226, codes "IM Used")
    ∷ (300, codes "Multiple Choices")
    ∷ (301, codes "Moved Permanently")
    ∷ (302, codes "Found")
    ∷ (303, codes "See Other")
    ∷ (304, codes "Not Modified")
    ∷ (305, codes "Use Proxy")
    ∷ (307, codes "Temporary Redirect")
    ∷ (308, codes "Permanent Redirect")
    ∷ (400, codes "Bad Request")
    ∷ (401, codes "Unauthorized")
    ∷ (402, codes "Payment Required")
    ∷ (403, codes "Forbidden")
    ∷ (404, codes "Not Found")
    ∷ (405, codes "Method Not Allowed")
    ∷ (406, codes "Not Acceptable")
    ∷ (407, codes "Proxy Authentication Required")
    ∷ (408, codes "Request Timeout")
    ∷ (409, codes "Conflict")
    ∷ (410, codes "Gone")
    ∷ (411, codes "Length Required")
    ∷ (412, codes "Precondition Failed")
    ∷ (413, codes "Content Too Large")
    ∷ (414, codes "URI Too Long")
    ∷ (415, codes "Unsupported Media Type")
    ∷ (416, codes "Range Not Satisfiable")
    ∷ (417, codes "Expectation Failed")
    ∷ (421, codes "Misdirected Request")
    ∷ (422, codes "Unprocessable Content")
    ∷ (423, codes "Locked")
    ∷ (424, codes "Failed Dependency")
    ∷ (425, codes "Too Early")
    ∷ (426, codes "Upgrade Required")
    ∷ (428, codes "Precondition Required")
    ∷ (429, codes "Too Many Requests")
    ∷ (431, codes "Request Header Fields Too Large")
    ∷ (451, codes "Unavailable For Legal Reasons")
    ∷ (500, codes "Internal Server Error")
    ∷ (501, codes "Not Implemented")
    ∷ (502, codes "Bad Gateway")
    ∷ (503, codes "Service Unavailable")
    ∷ (504, codes "Gateway Timeout")
    ∷ (505, codes "HTTP Version Not Supported")
    ∷ (506, codes "Variant Also Negotiates")
    ∷ (507, codes "Insufficient Storage")
    ∷ (508, codes "Loop Detected")
    ∷ (510, codes "Not Extended")
    ∷ (511, codes "Network Authentication Required")
    ∷ []

abbrev find_reason : ℕ → List (ℕ × Bytes) → Bytes
find_reason code [] = []
find_reason code ((c, reason) ∷ more) = if c == code then reason else find_reason code more

unfoldable pub standard_reason_phrase : Int32 → Bytes
standard_reason_phrase (nonneg code) = find_reason code k_statuses
standard_reason_phrase (negative code) = []

-- `std::less` on strings: the first bytes that differ, then the length.
unfoldable pub less : Bytes → Bytes → Bool
less [] [] = false
less [] (y ∷ ys) = true
less (x ∷ xs) [] = false
less (x ∷ xs) (y ∷ ys) = ltb x y || (x == y && less xs ys)

-- A `std::map` as its entries in the order of the keys; `headers_[field] = value`.
unfoldable pub put_field : Bytes → Bytes → List (Bytes × Bytes) → List (Bytes × Bytes)
put_field field value [] = (field, value) ∷ []
put_field field value ((f, v) ∷ more) =
    let rest = put_field field value more in
    if less field f
    then (field, value) ∷ (f, v) ∷ more
    else if equal field f
    then (field, value) ∷ more
    else (f, v) ∷ rest

pub record HttpResponse : Type 0 where
  pub status_code : Int32
  pub status_message : Bytes
  pub close_connection : Bool
  pub headers : List (Bytes × Bytes)
  pub body : Bytes

unfoldable pub new_http_response : Bool → HttpResponse
new_http_response close_connection = record {
  status_code = nonneg 0;
  status_message = [];
  close_connection = close_connection;
  headers = [];
  body = [];
}

unfoldable pub add_header : Bytes → Bytes → HttpResponse → HttpResponse
add_header field value r = record r { headers = put_field field value r.headers }

unfoldable pub set_content_type : Bytes → HttpResponse → HttpResponse
set_content_type content_type r = add_header (codes "Content-Type") content_type r

-- `std::to_string`.
unfoldable pub to_string : Int32 → Bytes
to_string (nonneg n) = to_chars 10 n
to_string (negative n) = b'-' ∷ to_chars 10 n

-- The function `status_message()`.
unfoldable pub reason_phrase : HttpResponse → Bytes
reason_phrase r =
    let standard = standard_reason_phrase r.status_code in
    if not (is_empty r.status_message)
    then r.status_message
    else if not (is_empty standard)
    then standard
    else codes "Unknown"

-- A line and its end.
abbrev pub crlf_line : Bytes → Bytes
crlf_line line = line ++ b'\r' ∷ b'\n' ∷ []

unfoldable pub status_line : HttpResponse → Bytes
status_line r = codes "HTTP/1.1 " ++ (to_string r.status_code ++ b' ' ∷ reason_phrase r)

abbrev pub field_line : Bytes × Bytes → Bytes
field_line (field, value) = field ++ b':' ∷ b' ' ∷ value

-- The fields that the class adds itself.
unfoldable pub connection_field : HttpResponse → Bytes × Bytes
connection_field r =
    (codes "Connection", if r.close_connection then codes "close" else codes "Keep-Alive")

unfoldable pub framing_field : Bool → HttpResponse → Bytes × Bytes
framing_field chunked r =
    if not (status_code_allows_body r.status_code)
    then (codes "Content-Length", codes "0")
    else if chunked
    then (codes "Transfer-Encoding", codes "chunked")
    else (codes "Content-Length", to_chars 10 (length r.body))

-- The loop over the fields.
unfoldable pub append_fields : List (Bytes × Bytes) → Buffer → Buffer
append_fields [] output = output
append_fields (f ∷ fs) output = append_fields fs (append (crlf_line (field_line f)) output)

unfoldable pub append_headers_to_buffer : Bool → HttpResponse → Buffer → Buffer
append_headers_to_buffer chunked r output =
    let started = append (crlf_line (status_line r)) output in
    let connected = append (crlf_line (field_line (connection_field r))) started in
    let framed = append (crlf_line (field_line (framing_field chunked r))) connected in
    append (codes "\r\n") (append_fields r.headers framed)

unfoldable pub append_to_buffer : Bool → HttpResponse → Buffer → Buffer
append_to_buffer include_body r output =
    let headed = append_headers_to_buffer false r output in
    if include_body && status_code_allows_body r.status_code then append r.body headed else headed
