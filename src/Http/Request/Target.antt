-- ===== src/Http/Request/Target.antt =====
-- `set_request_target`: the origin form, and targets that carry a URL in their query.
use oklib.Common.{
  length, drop, take-append_exact, drop-append_exact, drop-drop, drop-append_add, Bytes, ◌+◌, ◌≡◌,
  refl, sym, ap, ◌∙◌, none, some, [], ◌∷◌, ◌++◌, arith,
}
use oklib.Http.Text.{equal, find_from}
use oklib.Http.Text.Split.{Lacks, find-append, find-Lacks, lacks}
use oklib.Http.Request.{
  set_path_query, find_scheme, absolute_path, set_request_target, HttpRequest, origin, absolute,
}

-- A target in origin form, its path up to the first question mark, and no "://" in it.
set_path_query-append :
    (path query : Bytes) (r : HttpRequest)
    → Lacks b'?' path
    → set_path_query (path ++ b'?' ∷ query) r ≡ record r { path = path; query = query }
unfolding set_path_query
set_path_query-append path query r h =
    rw
      (
        find-append b'?' path query h,
        set_path_query,
        take-append_exact (length path) path (b'?' ∷ query) refl,
        drop-append_add path (b'?' ∷ query) 1,
      )
      refl

-- A target that begins with a slash, has a question mark, and holds no "://" is in origin form: the
-- path goes up to the first question mark, the query is all that follows it.
pub set_request_target-origin :
    (path query : Bytes) (r : HttpRequest)
    → Lacks b'?' path
    → find_scheme (b'/' ∷ (path ++ b'?' ∷ query)) ≡ none
    → set_request_target (b'/' ∷ (path ++ b'?' ∷ query)) r ≡ record r {
      target = b'/' ∷ (path ++ b'?' ∷ query);
      target_form = origin;
      path = b'/' ∷ path;
      query = query;
    }
unfolding set_request_target equal
set_request_target-origin path query r lacks h =
    rw (h, set_request_target)
      (set_path_query-append (b'/' ∷ path) query _ ((λ e. absurd (omega (arith, e))), lacks))

find_scheme-append :
    (front rest : Bytes)
    → Lacks b':' front
    → find_scheme (front ++ b':' ∷ b'/' ∷ b'/' ∷ rest) ≡ some (length front)
unfolding find_scheme
find_scheme-append [] rest h = refl
find_scheme-append (x ∷ []) rest h = ground (arith, h.0)
find_scheme-append (x ∷ y ∷ []) rest h = ground (arith, h.0, find_scheme-append (y ∷ []) rest h.1)
find_scheme-append (x ∷ y ∷ z ∷ front) rest h =
    ground (arith, h.0, find_scheme-append (y ∷ z ∷ front) rest h.1)

-- The path of a URL begins at the first slash behind its host, and is a slash where there is none.
absolute_path-append :
    (front host tail : Bytes)
    → Lacks b'/' host
    → absolute_path (length front) (front ++ b':' ∷ b'/' ∷ b'/' ∷ (host ++ b'/' ∷ tail))
      ≡ b'/' ∷ tail
unfolding absolute_path find_from
absolute_path-append front host tail h =
    let url = b':' ∷ b'/' ∷ b'/' ∷ (host ++ b'/' ∷ tail) in
    let behind = drop-append_add front url 3 in
    rw (behind, find-append b'/' host tail h, absolute_path)
      (sym (drop-drop (length host) (length front + 3) (front ++ url))
        ∙ ap (drop (length host)) behind
        ∙ drop-append_exact (length host) host (b'/' ∷ tail) refl)

absolute_path_none :
    (front host : Bytes)
    → Lacks b'/' host
    → absolute_path (length front) (front ++ b':' ∷ b'/' ∷ b'/' ∷ host) ≡ b'/' ∷ []
unfolding absolute_path find_from
absolute_path_none front host h =
    rw (drop-append_add front (b':' ∷ b'/' ∷ b'/' ∷ host) 3, find-Lacks b'/' host h, absolute_path)
      refl

set_path_query_plain :
    (path : Bytes) (r : HttpRequest)
    → Lacks b'?' path
    → set_path_query path r ≡ record r { path = path; query = [] }
unfolding set_path_query
set_path_query_plain path r h = rw (find-Lacks b'?' path h, set_path_query) refl

-- A target that begins with a slash and holds "://" further on.
abbrev pub embedding : Bytes → Bytes → Bytes
embedding front url = b'/' ∷ (front ++ b':' ∷ b'/' ∷ b'/' ∷ url)

-- What such a target is taken for.
abbrev pub taken_for : Bytes → Bytes → Bytes → HttpRequest → HttpRequest
taken_for target path query r = record r {
  target = target;
  target_form = absolute;
  path = path;
  query = query;
}

slash_Lacks : (s : Bytes) → Lacks b'?' s → Lacks b'?' (b'/' ∷ s)
slash_Lacks s h = ((λ e. absurd (omega (arith, e))), h)

embedded_url :
    (front url path : Bytes) (r : HttpRequest)
    → Lacks b':' front
    → absolute_path (length (b'/' ∷ front)) (embedding front url) ≡ path
    → set_request_target (embedding front url) r
      ≡ set_path_query path (record r { target = embedding front url; target_form = absolute })
unfolding set_request_target equal
embedded_url front url path r no_colon h =
    let slash_front : Lacks b':' (b'/' ∷ front) = ((λ e. absurd (omega (arith, e))), no_colon) in
    rw (find_scheme-append (b'/' ∷ front) url slash_front, set_request_target, h) refl

-- A target that begins with a slash and has a "://" with no colon in front of it, as a URL in its
-- query has, is taken for the absolute form, and all that stands in front of the path of that URL is
-- dropped. The host, behind the "://", goes up to the next slash. The path goes from that slash up
-- to the next question mark, and the query is what follows; without such a question mark the query
-- is empty, and without such a slash the path is a slash alone.
pub set_request_target-embedded :
    (front host path query : Bytes) (r : HttpRequest)
    → Lacks b':' front
    → Lacks b'/' host
    → Lacks b'?' path
    → (set_request_target (embedding front (host ++ b'/' ∷ (path ++ b'?' ∷ query))) r
        ≡ taken_for (embedding front (host ++ b'/' ∷ (path ++ b'?' ∷ query))) (b'/' ∷ path) query r)
      × (set_request_target (embedding front (host ++ b'/' ∷ path)) r
          ≡ taken_for (embedding front (host ++ b'/' ∷ path)) (b'/' ∷ path) [] r)
      × (set_request_target (embedding front host) r
          ≡ taken_for (embedding front host) (b'/' ∷ []) [] r)
set_request_target-embedded front host path query r no_colon no_slash no_mark =
    let tail = path ++ b'?' ∷ query in
    (
      embedded_url front (host ++ b'/' ∷ tail) (b'/' ∷ tail) r no_colon
            (absolute_path-append (b'/' ∷ front) host tail no_slash)
          ∙ set_path_query-append (b'/' ∷ path) query _ (slash_Lacks path no_mark),
      embedded_url front (host ++ b'/' ∷ path) (b'/' ∷ path) r no_colon
            (absolute_path-append (b'/' ∷ front) host path no_slash)
          ∙ set_path_query_plain (b'/' ∷ path) _ (slash_Lacks path no_mark),
      embedded_url front host (b'/' ∷ []) r no_colon
            (absolute_path_none (b'/' ∷ front) host no_slash)
          ∙ set_path_query_plain (b'/' ∷ []) _ (slash_Lacks [] tt),
    )
