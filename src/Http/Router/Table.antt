-- ===== src/Http/Router/Table.antt =====
-- The routes as a finite map from methods and paths.
use oklib.Common.{
  if◌then◌else◌, Bool-cases, Bytes, ◌≡◌, refl, sym, ap, ◌∙◌, ◌↔◌, inl, inr, true, ◌&&◌, some, List,
  [], ◌∷◌, arith,
}
use oklib.Http.Text.{equal}
use oklib.Http.Router.{Handler, uppercase, is_route, find_route, put_route, add_streaming, Route}

pub equal_iff : (a b : Bytes) → (equal a b ≡ true) ↔ (a ≡ b)
unfolding equal
equal_iff [] [] = (λ _. refl, λ _. refl)
equal_iff [] (y ∷ ys) = (λ h. cc, λ h. cc)
equal_iff (x ∷ xs) [] = (λ h. cc, λ h. cc)
equal_iff (x ∷ xs) (y ∷ ys) =
    (λ h. ground (arith, (equal_iff xs ys).0), λ h. ground (arith, (equal_iff xs ys).1))

equal_congr : (a b c : Bytes) → equal a b ≡ true → equal a c ≡ equal b c
equal_congr a b c h = ap (λ x. equal x c) ((equal_iff a b).0 h)

equal_meet : (a b c : Bytes) → equal a c ≡ true → equal b c ≡ true → equal a b ≡ true
equal_meet a b c h k = (equal_iff a b).1 ((equal_iff a c).0 h ∙ sym ((equal_iff b c).0 k))

find_route-put_route :
    (method path : Bytes) (new : Route) (routes : List Route)
    → find_route method path (put_route new routes)
      ≡ (if is_route method path new then some new.handler else find_route method path routes)
unfolding find_route put_route
find_route-put_route method path new [] = refl
find_route-put_route method path new (route ∷ routes) =
    elim (Bool-cases (is_route new.method new.path route)) [
      | inl h ↦
          rw (h, put_route)
            (ground (
              arith,
              equal_congr route.method new.method method,
              equal_congr route.path new.path path,
            ))
      | inr h ↦
          rw (h, put_route)
            (ground (
              arith,
              h,
              find_route-put_route method path new routes,
              equal_meet route.method new.method method,
              equal_meet route.path new.path path,
            ))
    ]

-- A route that has been added is found under its method, in capital letters, and its path, in place
-- of any handler that was there; every other route is found as before.
pub find_route-add_streaming :
    (method path : Bytes) (m p : Bytes) (handler : Handler) (routes : List Route)
    → find_route method path (add_streaming m p handler routes) ≡ (
        if equal (uppercase m) method && equal p path
        then some handler
        else find_route method path routes)
unfolding add_streaming
find_route-add_streaming method path m p handler routes =
    find_route-put_route method path (record { method = uppercase m; path = p; handler = handler })
      routes

pub equal_swap : (a b : Bytes) → equal a b ≡ equal b a
unfolding equal
equal_swap [] [] = refl
equal_swap [] (y ∷ ys) = refl
equal_swap (x ∷ xs) [] = refl
equal_swap (x ∷ xs) (y ∷ ys) = ground (arith, equal_swap xs ys)
