-- ===== src/Buffer/Refinement.antt =====
-- A session with a buffer, as a sequence of calls, against the same session with a byte string.
use oklib.Common.{take, drop, Bytes, ℕ, ◌≡◌, refl, ap, ap₂, ◌∙◌, List, [], ◌∷◌, ◌++◌}
use oklib.Buffer.{
  contents, retrieve_all, retrieve, retrieve_until, retrieve_as_string, retrieve_all_as_string,
  ensure_writable_bytes, append, read_fd, Buffer, ReadResult, read_error, received,
}
use oklib.Buffer.Invariant.{
  retrieve_all-IsValid, retrieve-IsValid, ensure-IsValid, append-IsValid, read_fd-IsValid, IsValid,
}
use oklib.Buffer.Contents.{
  contents-ensure, contents-append, contents-retrieve_all, contents-retrieve,
  retrieve_as_string_lem, retrieve_all_as_string_lem, contents-read_fd,
}

pub data Call : Type 0 where
  appends : Bytes → Call
  reads : ReadResult → Call
  retrieves : ℕ → Call
  retrieves_until : ℕ → Call
  takes : ℕ → Call
  takes_all : Call
  clears : Call
  reserves : ℕ → Call

-- What a call hands out (the empty string where it hands out none), and the buffer after it.
unfoldable pub call : Call → Buffer → Bytes × Buffer
call (appends bytes) b = ([], append bytes b)
call (reads r) b = ([], read_fd r b)
call (retrieves n) b = ([], retrieve n b)
call (retrieves_until end) b = ([], retrieve_until end b)
call (takes n) b = retrieve_as_string n b
call takes_all b = retrieve_all_as_string b
call clears b = ([], retrieve_all b)
call (reserves n) b = ([], ensure_writable_bytes n b)

unfoldable pub run : List Call → Buffer → List Bytes × Buffer
run [] b = ([], b)
run (c ∷ cs) b = let (out, b') = call c b in let (outs, last) = run cs b' in (out ∷ outs, last)

-- The same on a byte string: bytes come in at the end and go out at the front.
unfoldable pub queue_call : Call → Bytes → Bytes × Bytes
queue_call (appends bytes) q = ([], q ++ bytes)
queue_call (reads (read_error e)) q = ([], q)
queue_call (reads (received bytes)) q = ([], q ++ bytes)
queue_call (retrieves n) q = ([], drop n q)
queue_call (retrieves_until end) q = ([], drop end q)
queue_call (takes n) q = (take n q, drop n q)
queue_call takes_all q = (q, [])
queue_call clears q = ([], [])
queue_call (reserves n) q = ([], q)

unfoldable pub queue_run : List Call → Bytes → List Bytes × Bytes
queue_run [] q = ([], q)
queue_run (c ∷ cs) q =
    let (out, q') = queue_call c q in let (outs, last) = queue_run cs q' in (out ∷ outs, last)

call-IsValid : (c : Call) (b : Buffer) → IsValid b → IsValid (call c b).1
unfolding call
call-IsValid (appends bytes) b v = append-IsValid bytes b v
call-IsValid (reads r) b v = read_fd-IsValid r b v
call-IsValid (retrieves n) b v = retrieve-IsValid n b v
call-IsValid (retrieves_until end) b v = unfold retrieve_until in retrieve-IsValid end b v
call-IsValid (takes n) b v = unfold retrieve_as_string in retrieve-IsValid _ b v
call-IsValid takes_all b v =
    unfold retrieve_all_as_string retrieve_as_string in retrieve-IsValid _ b v
call-IsValid clears b v = retrieve_all-IsValid b v
call-IsValid (reserves n) b v = ensure-IsValid n b v

call_out : (c : Call) (b : Buffer) → IsValid b → (call c b).0 ≡ (queue_call c (contents b)).0
unfolding call queue_call
call_out (appends bytes) b v = refl
call_out (reads (read_error e)) b v = refl
call_out (reads (received bytes)) b v = refl
call_out (retrieves n) b v = refl
call_out (retrieves_until end) b v = refl
call_out (takes n) b v = (retrieve_as_string_lem n b v).0
call_out takes_all b v = (retrieve_all_as_string_lem b v).0
call_out clears b v = refl
call_out (reserves n) b v = refl

contents-call :
    (c : Call) (b : Buffer) → IsValid b → contents (call c b).1 ≡ (queue_call c (contents b)).1
unfolding call queue_call
contents-call (appends bytes) b v = contents-append bytes b v
contents-call (reads (read_error e)) b v = unfold read_fd in refl
contents-call (reads (received bytes)) b v = contents-read_fd bytes b v
contents-call (retrieves n) b v = contents-retrieve n b v
contents-call (retrieves_until end) b v = unfold retrieve_until in contents-retrieve end b v
contents-call (takes n) b v = (retrieve_as_string_lem n b v).1
contents-call takes_all b v = (retrieve_all_as_string_lem b v).1
contents-call clears b v = contents-retrieve_all b
contents-call (reserves n) b v = contents-ensure n b v

-- A session with a valid buffer hands out what the same session with its unread bytes as a plain
-- byte string hands out, leaves the same unread bytes, and leaves the buffer valid.
pub run-queue_run :
    (cs : List Call) (b : Buffer)
    → IsValid b
    → ((run cs b).0 ≡ (queue_run cs (contents b)).0)
      × (contents (run cs b).1 ≡ (queue_run cs (contents b)).1)
      × IsValid (run cs b).1
unfolding run queue_run
run-queue_run [] b v = (refl, refl, v)
run-queue_run (c ∷ cs) b v =
    let (outs, last, valid) = run-queue_run cs (call c b).1 (call-IsValid c b v) in
    (
      ap₂ ◌∷◌ (call_out c b v) (outs ∙ ap (λ q. (queue_run cs q).0) (contents-call c b v)),
      last ∙ ap (λ q. (queue_run cs q).1) (contents-call c b v),
      valid,
    )
