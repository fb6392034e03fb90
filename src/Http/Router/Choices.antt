-- ===== src/Http/Router/Choices.antt =====
-- Which choice the router makes, and the methods that it names in a refusal.
use oklib.Common.{
  Bool-cases, Option-cases, Bytes, ◌≡◌, refl, sym, ap, subst, ◌≢◌, inl, inr, Bool, true, false,
  ◌||◌, Option, none, some, List, [], ◌∷◌, ◌++◌, arith,
}
use oklib.Http.Text.{equal}
use oklib.Http.Request.{method_string, HttpRequest}
use oklib.Http.Router.{
  Handler, uppercase, find_route, is_listed, collect_methods, allowed_methods, refusal,
  streaming_callback, Route, Choice, handled_by, method_not_allowed, not_found,
}
use oklib.Http.Router.Table.{equal_iff, equal_swap}

abbrev pub is_some : Option Handler → Bool
is_some none = false
is_some (some h) = true

is_listed-append :
    (m n : Bytes) (ms : List Bytes) → is_listed m (ms ++ (n ∷ [])) ≡ is_listed m ms || equal n m
unfolding is_listed
is_listed-append m n [] = ground arith
is_listed-append m n (x ∷ xs) = ground (arith, is_listed-append m n xs)

-- A method whose equal is listed is listed.
is_listed_congr :
    (m n : Bytes) (ms : List Bytes) → equal n m ≡ true → is_listed n ms ≡ is_listed m ms
is_listed_congr m n ms h = ap (λ x. is_listed x ms) ((equal_iff n m).0 h)

-- The methods found so far, and those of the routes with the path.
is_listed-collect :
    (m path : Bytes) (found : List Bytes) (routes : List Route)
    → is_listed m (collect_methods found path routes)
      ≡ is_listed m found || is_some (find_route m path routes)
unfolding collect_methods find_route
is_listed-collect m path found [] = ground arith
is_listed-collect m path found (route ∷ routes) = elim (Bool-cases (equal route.path path)) [
  | inr h ↦ rw (h, collect_methods) (ground (arith, h, is_listed-collect m path found routes))
  | inl h ↦ elim (Bool-cases (is_listed route.method found)) [
    | inl k ↦
        rw (h, k, collect_methods)
          (ground
            (arith, h, is_listed-collect m path found routes, is_listed_congr m route.method found))
    | inr k ↦
        rw (h, k, collect_methods)
          (ground (
            arith,
            h,
            is_listed-collect m path (found ++ (route.method ∷ [])) routes,
            is_listed-append m route.method found,
          ))
  ]
]

-- No method stands twice in the list.
abbrev pub Distinct : List Bytes → Type 0
Distinct [] = Unit
Distinct (m ∷ ms) = (is_listed m ms ≡ false) × Distinct ms

append-Distinct :
    (ms : List Bytes) (n : Bytes) → Distinct ms → is_listed n ms ≡ false → Distinct (ms ++ (n ∷ []))
unfolding is_listed
append-Distinct [] n d h = (refl, tt)
append-Distinct (m ∷ ms) n (d, ds) h = (
  ground (arith, is_listed-append m n ms, equal_swap n m),
  append-Distinct ms n ds (ground arith),
)

collect-Distinct :
    (path : Bytes) (found : List Bytes) (routes : List Route)
    → Distinct found
    → Distinct (collect_methods found path routes)
unfolding collect_methods
collect-Distinct path found [] d = d
collect-Distinct path found (route ∷ routes) d = elim (Bool-cases (equal route.path path)) [
  | inr h ↦ rw (h, collect_methods) (collect-Distinct path found routes d)
  | inl h ↦ elim (Bool-cases (is_listed route.method found)) [
    | inl k ↦ rw (h, k, collect_methods) (collect-Distinct path found routes d)
    | inr k ↦
        rw (h, k, collect_methods)
          (collect-Distinct path (found ++ (route.method ∷ [])) routes
            (append-Distinct found route.method d k))
  ]
]

-- What a choice says of the table.
abbrev pub IsChoice : List Route → Bytes → Bytes → Choice → Type 0
IsChoice routes method path (handled_by h) = find_route method path routes ≡ some h
IsChoice routes method path (method_not_allowed ms) =
    (find_route method path routes ≡ none)
    × (ms ≢ [])
    × Distinct ms
    × ((m : Bytes) → is_listed m ms ≡ is_some (find_route m path routes))
IsChoice routes method path not_found = (m : Bytes) → find_route m path routes ≡ none

collected : (path : Bytes) (routes : List Route) → Distinct (allowed_methods path routes)
unfolding allowed_methods
collected path routes = collect-Distinct path [] routes tt

listed :
    (m path : Bytes) (routes : List Route)
    → is_listed m (allowed_methods path routes) ≡ is_some (find_route m path routes)
unfolding allowed_methods is_listed
listed m path routes = is_listed-collect m path [] routes

refusal-IsChoice :
    (routes : List Route) (method path : Bytes) (ms : List Bytes)
    → find_route method path routes ≡ none
    → Distinct ms
    → ((m : Bytes) → is_listed m ms ≡ is_some (find_route m path routes))
    → IsChoice routes method path (refusal ms)
unfolding refusal is_listed
refusal-IsChoice routes method path [] e d l = λ m. ground (arith, l m)
refusal-IsChoice routes method path (n ∷ ms) e d l = (e, (λ p. cc), d, l)

-- A request goes to the handler of its method, in capital letters, and its path, if there is one.
-- If there is none, but the path has routes, it is refused with their methods, each of them once
-- and no others. It is not found exactly when no method has a route with its path.
pub streaming_callback-IsChoice :
    (routes : List Route) (request : HttpRequest)
    → IsChoice routes
        (uppercase (method_string request))
        request.path
        (streaming_callback routes request)
unfolding streaming_callback
streaming_callback-IsChoice routes request =
    let method = uppercase (method_string request) in
    elim (Option-cases (find_route method request.path routes)) [
      | inr (h, e) ↦ rw (e, streaming_callback) e
      | inl e ↦ subst (IsChoice routes method request.path) (sym (refused e)) (
          refusal-IsChoice routes method request.path (allowed_methods request.path routes) e
            (collected request.path routes) (λ m. listed m request.path routes))
    ]
  where
    refused :
        find_route (uppercase (method_string request)) request.path routes ≡ none
        → streaming_callback routes request ≡ refusal (allowed_methods request.path routes)
    refused e = rw (e, streaming_callback) refl
