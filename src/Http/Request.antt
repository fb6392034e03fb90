-- ===== src/Http/Request.antt =====
-- include/oklib/http/http_request.h and src/http/http_request.cpp, with `set_request_target` of
-- src/http/http_parser.cpp.
pub mod Target
use oklib.Common.{
  ◌==◌, if◌then◌else◌, length, take, drop, Bytes, codes, ℕ, zero, suc, ◌+◌, ◌*◌, ◌/◌, Bool, true,
  false, not, ◌&&◌, ◌||◌, Option, none, some, [], ◌∷◌,
}
use oklib.Http.Text.{equal, is_empty, find, find_from, all_token}
use oklib.Http.Headers.{HttpHeaders}
use oklib.Http.Url.{url_decode, form}

pub data HttpMethod : Type 0 where
  invalid get_method head post put delete_method options trace connect patch : HttpMethod

pub data HttpVersion : Type 0 where
  unknown http10 http11 : HttpVersion

pub data HttpRequestTargetForm : Type 0 where
  unknown_form origin absolute authority asterisk : HttpRequestTargetForm

-- `receive_time` is the number of a time stamp.
pub record HttpRequest : Type 0 where
  pub method : HttpMethod
  pub method_token : Bytes
  pub version : HttpVersion
  pub target_form : HttpRequestTargetForm
  pub target : Bytes
  pub path : Bytes
  pub query : Bytes
  pub body : Bytes
  pub content_length : Option ℕ
  pub receive_time : ℕ
  pub peer_ip : Bytes
  pub peer_port : ℕ
  pub headers : HttpHeaders
  pub trailers : HttpHeaders

unfoldable pub new_request : HttpRequest
new_request = record {
  method = invalid;
  method_token = [];
  version = unknown;
  target_form = unknown_form;
  target = [];
  path = [];
  query = [];
  body = [];
  content_length = none;
  receive_time = 0;
  peer_ip = [];
  peer_port = 0;
  headers = [];
  trailers = [];
}

unfoldable pub method_name : HttpMethod → Bytes
method_name get_method = codes "GET"
method_name head = codes "HEAD"
method_name post = codes "POST"
method_name put = codes "PUT"
method_name delete_method = codes "DELETE"
method_name options = codes "OPTIONS"
method_name trace = codes "TRACE"
method_name connect = codes "CONNECT"
method_name patch = codes "PATCH"
method_name invalid = codes "INVALID"

unfoldable pub method_string : HttpRequest → Bytes
method_string r = if not (is_empty r.method_token) then r.method_token else method_name r.method

-- The ladder of comparisons in `set_method`.
unfoldable pub method_of : Bytes → HttpMethod
method_of m =
    if equal m (codes "GET")
    then get_method
    else if equal m (codes "HEAD")
    then head
    else if equal m (codes "POST")
    then post
    else if equal m (codes "PUT")
    then put
    else if equal m (codes "DELETE")
    then delete_method
    else if equal m (codes "OPTIONS")
    then options
    else if equal m (codes "TRACE")
    then trace
    else if equal m (codes "CONNECT")
    then connect
    else if equal m (codes "PATCH")
    then patch
    else invalid

unfoldable pub set_method : Bytes → HttpRequest → Bool × HttpRequest
set_method m r =
    if is_empty m || not (all_token m)
    then (false, record r { method = invalid; method_token = [] })
    else (true, record r { method = method_of m; method_token = m })

-- The path and the query, split at the first question mark.
unfoldable pub set_path_query : Bytes → HttpRequest → HttpRequest
set_path_query path r = elim (find b'?' path) [
  | none ↦ record r { path = path; query = [] }
  | some q ↦ record r { path = take q path; query = drop (q + 1) path }
]

-- `find("://")`.
unfoldable pub find_scheme : Bytes → Option ℕ
find_scheme [] = none
find_scheme (x ∷ []) = none
find_scheme (x ∷ y ∷ []) = none
find_scheme (x ∷ y ∷ z ∷ rest) =
    let later = find_scheme (y ∷ z ∷ rest) in
    if x == b':' && y == b'/' && z == b'/'
    then some 0
    else elim later [ none ↦ none | some i ↦ some (suc i) ]

-- The path of a target with a scheme: from the first slash behind the authority.
unfoldable pub absolute_path : ℕ → Bytes → Bytes
absolute_path scheme target = elim (find_from b'/' (scheme + 3) target) [
  | none ↦ codes "/"
  | some path_start ↦ drop path_start target
]

abbrev pub starts_with_slash : Bytes → Bool
starts_with_slash [] = false
starts_with_slash (x ∷ xs) = x == b'/'

unfoldable pub set_request_target : Bytes → HttpRequest → HttpRequest
set_request_target target r =
    let named : HttpRequest = record r { target = target } in
    if equal target (codes "*")
    then record named { target_form = asterisk; path = codes "*"; query = [] }
    else elim (find_scheme target) [
      | some scheme ↦
          set_path_query (absolute_path scheme target) (record named { target_form = absolute })
      | none ↦
          if starts_with_slash target
          then set_path_query target (record named { target_form = origin })
          else record named { target_form = authority; path = target; query = [] }
    ]

-- One part of the query, `key=value` or `key`.
unfoldable pub param_key : Bytes → Bytes
param_key part = elim (find b'=' part) [ none ↦ part | some e ↦ take e part ]

unfoldable pub param_value : Bytes → Bytes
param_value part = elim (find b'=' part) [ none ↦ [] | some e ↦ drop (e + 1) part ]

-- The loop over the parts. Every round takes a character at least.
query_param_fuel : ℕ → Bytes → Bytes → Option Bytes
query_param_fuel fuel name [] = none
query_param_fuel zero name (x ∷ xs) = none
query_param_fuel (suc fuel) name (x ∷ xs) =
    let amp = find b'&' (x ∷ xs) in
    let part : Bytes = elim amp [ none ↦ x ∷ xs | some i ↦ take i (x ∷ xs) ] in
    elim (equal (url_decode form (param_key part)) name) [
      | true ↦ some (url_decode form (param_value part))
      | false ↦ elim amp [
        | none ↦ none
        | some i ↦ query_param_fuel fuel name (drop (i + 1) (x ∷ xs))
      ]
    ]

unfoldable pub query_param : Bytes → HttpRequest → Option Bytes
unfolding query_param_fuel
query_param name r = query_param_fuel (length r.query) name r.query
