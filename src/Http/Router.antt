-- ===== src/Http/Router.antt =====
-- `HttpRouter` of src/http/http_router.cpp: the table of routes and the choice of a handler. A
-- handler is a name; what it does with the request is not part of the router.
pub mod Table
pub mod Choices
use oklib.Common.{
  if◌then◌else◌, Bytes, ℕ, ◌-◌, Bool, false, not, ◌&&◌, ◌||◌, Option, none, some, List, [], ◌∷◌,
  ◌++◌, map,
}
use oklib.Http.Text.{within, equal}
use oklib.Http.Request.{method_string, HttpRequest}

abbrev pub Handler : Type 0
Handler = ℕ

pub record Route : Type 0 where
  pub method : Bytes
  pub path : Bytes
  pub handler : Handler

-- `toupper` of the C locale.
unfoldable pub to_upper : ℕ → ℕ
to_upper c = if within b'a' b'z' c then c - 32 else c

unfoldable pub uppercase : Bytes → Bytes
uppercase = map to_upper

abbrev pub is_route : Bytes → Bytes → Route → Bool
is_route method path route = equal route.method method && equal route.path path

unfoldable pub find_route : Bytes → Bytes → List Route → Option Handler
find_route method path [] = none
find_route method path (route ∷ routes) =
    let later = find_route method path routes in
    if is_route method path route then some route.handler else later

-- `std::find` on the methods so far.
unfoldable pub is_listed : Bytes → List Bytes → Bool
is_listed method [] = false
is_listed method (m ∷ ms) = equal m method || is_listed method ms

-- The loop over the routes, with the methods that it has found.
unfoldable pub collect_methods : List Bytes → Bytes → List Route → List Bytes
collect_methods found path [] = found
collect_methods found path (route ∷ routes) =
    let skipped = collect_methods found path routes in
    let added = collect_methods (found ++ (route.method ∷ [])) path routes in
    if not (equal route.path path)
    then skipped
    else if is_listed route.method found
    then skipped
    else added

unfoldable pub allowed_methods : Bytes → List Route → List Bytes
allowed_methods path routes = collect_methods [] path routes

-- The route that is replaced, or the new one at the end.
unfoldable pub put_route : Route → List Route → List Route
put_route new [] = new ∷ []
put_route new (route ∷ routes) =
    let rest = put_route new routes in
    if is_route new.method new.path route
    then record route { handler = new.handler } ∷ routes
    else route ∷ rest

unfoldable pub add_streaming : Bytes → Bytes → Handler → List Route → List Route
add_streaming method path handler routes =
    put_route (record { method = uppercase method; path = path; handler = handler }) routes

-- What is done with a request.
pub data Choice : Type 0 where
  handled_by : Handler → Choice
  method_not_allowed : List Bytes → Choice
  not_found : Choice

-- The choice for a request without a route, by the methods that its path has.
unfoldable pub refusal : List Bytes → Choice
refusal [] = not_found
refusal (m ∷ ms) = method_not_allowed (m ∷ ms)

-- `streaming_callback()`, called with a request.
unfoldable pub streaming_callback : List Route → HttpRequest → Choice
streaming_callback routes request =
    elim (find_route (uppercase (method_string request)) request.path routes) [
      | some handler ↦ handled_by handler
      | none ↦ refusal (allowed_methods request.path routes)
    ]
