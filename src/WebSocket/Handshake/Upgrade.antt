-- ===== src/WebSocket/Handshake/Upgrade.antt =====
-- The checks of src/websocket/websocket_handshake.cpp on an upgrade request. `trim_ows` and
-- `equals_ignore_case` are the same text as in the HTTP parser and its headers.
use oklib.Http.Parser.Framing.{is_http11}
use oklib.Http.Router.Table.{equal_iff}
use oklib.WebSocket.Handshake.{websocket_accept_key}
use oklib.Common.{
  if◌then◌else◌, Bool-cases, All, Bytes, codes, ◌≡◌, refl, ap, ◌∙◌, ◌↔◌, ◌⊎◌, inl, inr, Bool, true,
  false, not, ◌&&◌, Option, none, some, List, [], ◌∷◌, arith,
}
use oklib.Http.Text.{equal, is_empty, trim_ows, split_commas}
use oklib.Http.Text.Split.{join_commas, split_commas-join_commas, IsPart}
use oklib.Http.Request.{method_string, HttpRequest, HttpVersion, unknown, http10, http11}
use oklib.Http.Headers.{equals_ignore_case, get}

abbrev filled : List Bytes → List Bytes
filled [] = []
filled (part ∷ parts) = if is_empty part then filled parts else part ∷ filled parts

-- The loop over the commas drops the parts that are empty when they are trimmed.
unfoldable pub websocket_split_tokens : Bytes → List Bytes
websocket_split_tokens value = filled (split_commas value)

abbrev pub any_ignore_case : Bytes → List Bytes → Bool
any_ignore_case token [] = false
any_ignore_case token (part ∷ parts) =
    if equals_ignore_case part token then true else any_ignore_case token parts

unfoldable pub websocket_header_has_token : Bytes → Bytes → Bool
websocket_header_has_token value token = any_ignore_case token (websocket_split_tokens value)

unfoldable pub websocket_is_upgrade_request : HttpRequest → Bool
websocket_is_upgrade_request request =
    equal (method_string request) (codes "GET")
    && is_http11 request.version
    && websocket_header_has_token (get (codes "Connection") request.headers) (codes "Upgrade")
    && equals_ignore_case (get (codes "Upgrade") request.headers) (codes "websocket")
    && equal (get (codes "Sec-WebSocket-Version") request.headers) (codes "13")
    && not (is_empty (get (codes "Sec-WebSocket-Key") request.headers))

unfoldable pub websocket_requested_subprotocols : HttpRequest → List Bytes
websocket_requested_subprotocols request =
    websocket_split_tokens (get (codes "Sec-WebSocket-Protocol") request.headers)

unfoldable pub websocket_validate_client_key : Bytes → Option Bytes
websocket_validate_client_key key =
    if is_empty (trim_ows key) then none else some (websocket_accept_key (trim_ows key))

filled_lem : (parts : List Bytes) → All IsPart parts → filled parts ≡ parts
filled_lem [] h = refl
filled_lem (part ∷ parts) h = rw h.0.filled (ap (◌∷◌ part) (filled_lem parts h.1))

-- Tokens that are joined by commas are split into the same tokens.
pub websocket_split_tokens-join_commas :
    (parts : List Bytes) → All IsPart parts → websocket_split_tokens (join_commas parts) ≡ parts
unfolding websocket_split_tokens
websocket_split_tokens-join_commas parts h =
    ap filled (split_commas-join_commas parts h) ∙ filled_lem parts h

-- Some token is `token`, in any case of its letters.
abbrev pub Lists : Bytes → List Bytes → Type 0
Lists token [] = ⊥
Lists token (part ∷ parts) = (equals_ignore_case part token ≡ true) ⊎ Lists token parts

any_ignore_case_iff :
    (token : Bytes) (parts : List Bytes) → (any_ignore_case token parts ≡ true) ↔ Lists token parts
any_ignore_case_iff token [] = (λ h. absurd (ground arith), λ h. absurd h)
any_ignore_case_iff token (part ∷ parts) =
    let rest = any_ignore_case_iff token parts in
    elim (Bool-cases (equals_ignore_case part token)) [
      | inl e ↦ rw e (λ h. inl refl, λ h. refl)
      | inr e ↦
          rw e
            (λ h. inr (rest.0 h), λ h. elim h [ inl w ↦ absurd (ground arith) | inr t ↦ rest.1 t ])
    ]

-- What makes a request an upgrade.
pub record IsUpgrade (request : HttpRequest) (connection : List Bytes) : Type 0 where
  pub is_get : method_string request ≡ codes "GET"
  pub is_version : request.version ≡ http11
  pub connection_upgrade : Lists (codes "Upgrade") connection
  pub upgrade :
      equals_ignore_case (get (codes "Upgrade") request.headers) (codes "websocket") ≡ true
  pub version_13 : get (codes "Sec-WebSocket-Version") request.headers ≡ codes "13"
  pub has_key : is_empty (get (codes "Sec-WebSocket-Key") request.headers) ≡ false

six_iff :
    (a b c d e f : Bool)
    → ((a && b && c && d && e && not f) ≡ true)
      ↔ ((a ≡ true) × (b ≡ true) × (c ≡ true) × (d ≡ true) × (e ≡ true) × (f ≡ false))
six_iff true true true true true false = (λ h. (refl, refl, refl, refl, refl, refl), λ h. refl)
six_iff true true true true true true = (λ h. absurd (ground arith), λ h. absurd (ground arith))
six_iff false b c d e f = (λ h. absurd (ground arith), λ h. absurd (ground arith))
six_iff true false c d e f = (λ h. absurd (ground arith), λ h. absurd (ground arith))
six_iff true true false d e f = (λ h. absurd (ground arith), λ h. absurd (ground arith))
six_iff true true true false e f = (λ h. absurd (ground arith), λ h. absurd (ground arith))
six_iff true true true true false f = (λ h. absurd (ground arith), λ h. absurd (ground arith))

is_http11_iff : (v : HttpVersion) → (is_http11 v ≡ true) ↔ (v ≡ http11)
is_http11_iff http11 = (λ h. refl, λ h. refl)
is_http11_iff unknown = (λ h. absurd (ground arith), λ h. absurd (ground arith))
is_http11_iff http10 = (λ h. absurd (ground arith), λ h. absurd (ground arith))

connection_iff :
    (value : Bytes) (connection : List Bytes) (token : Bytes)
    → All IsPart connection
    → value ≡ join_commas connection
    → (websocket_header_has_token value token ≡ true) ↔ Lists token connection
unfolding websocket_header_has_token
connection_iff value connection token parts h =
    rw (h, websocket_split_tokens-join_commas connection parts)
      (any_ignore_case_iff token connection)

-- A request whose Connection field is a list of tokens with commas between them: it is taken for an
-- upgrade exactly when it is a GET of HTTP/1.1, one of the tokens is "Upgrade" and the Upgrade
-- field "websocket", in any case of their letters, the version is 13, and the key is not empty.
pub IsUpgrade-iff :
    (request : HttpRequest) (connection : List Bytes)
    → All IsPart connection
    → get (codes "Connection") request.headers ≡ join_commas connection
    → (websocket_is_upgrade_request request ≡ true) ↔ IsUpgrade request connection
unfolding websocket_is_upgrade_request
IsUpgrade-iff request connection parts h =
    let field = λ (name : Bytes). get name request.headers in
    let is_get = equal_iff (method_string request) (codes "GET") in
    let version = is_http11_iff request.version in
    let connects =
      connection_iff (field (codes "Connection")) connection (codes "Upgrade") parts h in
    let is_13 = equal_iff (field (codes "Sec-WebSocket-Version")) (codes "13") in
    let all =
      six_iff (equal (method_string request) (codes "GET")) (is_http11 request.version)
        (websocket_header_has_token (field (codes "Connection")) (codes "Upgrade"))
        (equals_ignore_case (field (codes "Upgrade")) (codes "websocket"))
        (equal (field (codes "Sec-WebSocket-Version")) (codes "13"))
        (is_empty (field (codes "Sec-WebSocket-Key"))) in
    (
      λ e.
          let (a, b, c, d, v, k) = all.0 e in
          record {
            is_get = is_get.0 a;
            is_version = version.0 b;
            connection_upgrade = connects.0 c;
            upgrade = d;
            version_13 = is_13.0 v;
            has_key = k;
          },
      λ u. all.1 (
        is_get.1 u.is_get,
        version.1 u.is_version,
        connects.1 u.connection_upgrade,
        u.upgrade,
        is_13.1 u.version_13,
        u.has_key,
      ),
    )
