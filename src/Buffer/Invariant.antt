-- ===== src/Buffer/Invariant.antt =====
-- The indices of a buffer stay in order: prepend space, read index, write index, end of storage.
use oklib.Common.{
  length, take, drop, replicate, length-append, length-take, length-drop, length-replicate, Bytes,
  ℕ, ◌+◌, ◌-◌, ◌≤◌, ◌<◌, ◌≡◌, ◌++◌, arith,
}
use oklib.Buffer.{
  k_cheap_prepend, readable_bytes, writable_bytes, contents, new_buffer, write_at, resize,
  retrieve_all, retrieve, make_space, ensure_writable_bytes, has_written, put_bytes, append,
  read_fd, Buffer, ReadResult, read_error, received,
}

pub record IsValid (b : Buffer) : Type 0 where
  pub prepend : k_cheap_prepend ≤ b.reader_index
  pub ordered : b.reader_index ≤ b.writer_index
  pub fits : b.writer_index ≤ length b.storage

pub length-write_at :
    (at : ℕ) (bytes store : Bytes)
    → at + length bytes ≤ length store
    → length (write_at at bytes store) ≡ length store
unfolding write_at
length-write_at at bytes store h = omega (
  arith,
  length-append (take at store) (bytes ++ drop (at + length bytes) store),
  length-append bytes (drop (at + length bytes) store),
  length-take at store,
  length-drop (at + length bytes) store,
)

pub length-resize : (n : ℕ) (store : Bytes) → length store ≤ n → length (resize n store) ≡ n
unfolding resize
length-resize n store h = omega (
  arith,
  length-append (take n store) (replicate (n - length store) 0),
  length-take n store,
  length-replicate {A = ℕ} (n - length store) 0,
)

pub length-contents : (b : Buffer) → IsValid b → length (contents b) ≡ readable_bytes b
unfolding contents
length-contents b v = omega (
  arith,
  length-take (readable_bytes b) (drop b.reader_index b.storage),
  length-drop b.reader_index b.storage,
)

pub new_buffer-IsValid : (n : ℕ) → IsValid (new_buffer n)
unfolding new_buffer
new_buffer-IsValid n = record {
  prepend = omega arith;
  ordered = omega arith;
  fits = omega (arith, length-replicate {A = ℕ} (8 + n) 0);
}

pub retrieve_all-IsValid : (b : Buffer) → IsValid b → IsValid (retrieve_all b)
unfolding retrieve_all
retrieve_all-IsValid b v = omega arith

pub retrieve-IsValid : (n : ℕ) (b : Buffer) → IsValid b → IsValid (retrieve n b)
unfolding retrieve
retrieve-IsValid n b v = ground arith

-- When the writable part is too small, both ways of making room make enough.
make_space-IsValid :
    (n : ℕ) (b : Buffer) → IsValid b → writable_bytes b < n → IsValid (make_space n b)
unfolding make_space
make_space-IsValid n b v h = ground (
  arith,
  length-resize (b.writer_index + n) b.storage,
  length-contents b v,
  length-write_at k_cheap_prepend (contents b) b.storage,
)

make_space_room :
    (n : ℕ) (b : Buffer) → IsValid b → writable_bytes b < n → n ≤ writable_bytes (make_space n b)
unfolding make_space
make_space_room n b v h = ground (
  arith,
  length-resize (b.writer_index + n) b.storage,
  length-contents b v,
  length-write_at k_cheap_prepend (contents b) b.storage,
)

pub ensure-IsValid : (n : ℕ) (b : Buffer) → IsValid b → IsValid (ensure_writable_bytes n b)
unfolding ensure_writable_bytes
ensure-IsValid n b v = ground (arith, make_space-IsValid n b v)

pub ensure_room : (n : ℕ) (b : Buffer) → IsValid b → n ≤ writable_bytes (ensure_writable_bytes n b)
unfolding ensure_writable_bytes
ensure_room n b v = ground (arith, make_space_room n b v)

pub put_bytes-IsValid :
    (bytes : Bytes) (b : Buffer)
    → IsValid b
    → length bytes ≤ writable_bytes b
    → IsValid (put_bytes bytes b)
unfolding put_bytes has_written
put_bytes-IsValid bytes b v h = ground (arith, length-write_at b.writer_index bytes b.storage)

pub append-IsValid : (bytes : Bytes) (b : Buffer) → IsValid b → IsValid (append bytes b)
unfolding append
append-IsValid bytes b v =
    put_bytes-IsValid bytes (ensure_writable_bytes (length bytes) b)
      (ensure-IsValid (length bytes) b v) (ensure_room (length bytes) b v)

-- The state between the two parts of a read that has filled the writable part.
pub full-IsValid :
    (bytes : Bytes) (b : Buffer)
    → IsValid b
    → length bytes ≡ writable_bytes b
    → IsValid (record b {
      storage = write_at b.writer_index bytes b.storage;
      writer_index = length b.storage;
    })
full-IsValid bytes b v h = ground (arith, length-write_at b.writer_index bytes b.storage)

pub read_fd-IsValid : (r : ReadResult) (b : Buffer) → IsValid b → IsValid (read_fd r b)
unfolding read_fd has_written
read_fd-IsValid (read_error e) b v = v
read_fd-IsValid (received bytes) b v = ground (
  arith,
  length-write_at b.writer_index bytes b.storage,
  length-take (writable_bytes b) bytes,
  full-IsValid (take (writable_bytes b) bytes) b v,
  append-IsValid (drop (writable_bytes b) bytes) (record b {
    storage = write_at b.writer_index (take (writable_bytes b) bytes) b.storage;
    writer_index = length b.storage;
  }),
)
