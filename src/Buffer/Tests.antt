-- ===== src/Buffer/Tests.antt =====
-- Runs of the buffer, and the theorems at concrete inputs.
use oklib.Common.{codes, ◌≡◌, refl, List, [], ◌∷◌}
use oklib.Buffer.{
  contents, new_buffer, write_at, resize, find_crlf, retrieve, retrieve_as_string,
  retrieve_all_as_string, make_space, ensure_writable_bytes, has_written, put_bytes, append,
  read_fd, received,
}
use oklib.Buffer.Invariant.{new_buffer-IsValid, IsValid}
use oklib.Buffer.Refinement.{
  call, run, queue_run, run-queue_run, Call, appends, reads, retrieves, takes, takes_all,
}
use oklib.Buffer.Crlf.{IsFirstCrlf, find_crlf-IsFirstCrlf}

abbrev session : List Call
session =
    appends (codes "abc\r\nde")
    ∷ retrieves 3
    ∷ reads (received (codes "fghijklm"))
    ∷ takes 4
    ∷ takes_all
    ∷ []

session_runs :
    (run session (new_buffer 4)).0 ≡ [] ∷ [] ∷ [] ∷ codes "\r\nde" ∷ codes "fghijklm" ∷ []
unfolding run call new_buffer append put_bytes has_written write_at ensure_writable_bytes make_space
    resize contents retrieve read_fd retrieve_as_string retrieve_all_as_string
session_runs = refl

run-queue_run_example :
    ((run session (new_buffer 4)).0 ≡ (queue_run session (contents (new_buffer 4))).0)
    × (contents (run session (new_buffer 4)).1 ≡ (queue_run session (contents (new_buffer 4))).1)
    × IsValid (run session (new_buffer 4)).1
run-queue_run_example = run-queue_run session (new_buffer 4) (new_buffer-IsValid 4)

find_crlf-IsFirstCrlf_example :
    IsFirstCrlf
      (contents (append (codes "ab\r\n\r\n") (new_buffer 4)))
      (find_crlf (append (codes "ab\r\n\r\n") (new_buffer 4)))
find_crlf-IsFirstCrlf_example = find_crlf-IsFirstCrlf (append (codes "ab\r\n\r\n") (new_buffer 4))
