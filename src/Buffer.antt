-- ===== src/Buffer.antt =====
-- src/net/buffer.cpp and include/oklib/net/buffer.h: the byte buffer that every connection reads
-- into and every parser reads from. A pointer into the readable part is its offset from `peek()`.
-- Sizes stay below 2 ^ 64, since a vector's size does.
pub mod Invariant
pub mod Contents
pub mod Crlf
pub mod Refinement
mod Tests
use oklib.Common.{
  ℕ, zero, suc, ◌+◌, ◌-◌, min, Bool, ◌&&◌, List, [], ◌∷◌, ◌++◌, Option, none, some, Bytes, length,
  take, drop, replicate, ltb, leb, ◌==◌, if◌then◌else◌,
}

pub record Buffer : Type 0 where
  pub storage : Bytes
  pub reader_index : ℕ
  pub writer_index : ℕ

abbrev pub k_cheap_prepend : ℕ
k_cheap_prepend = 8

abbrev pub readable_bytes : Buffer → ℕ
readable_bytes b = b.writer_index - b.reader_index

abbrev pub writable_bytes : Buffer → ℕ
writable_bytes b = length b.storage - b.writer_index

abbrev pub prependable_bytes : Buffer → ℕ
prependable_bytes b = b.reader_index

-- The bytes from `peek()` up to `begin_write()`.
unfoldable pub contents : Buffer → Bytes
contents b = take (readable_bytes b) (drop b.reader_index b.storage)

unfoldable pub new_buffer : ℕ → Buffer
new_buffer initial_size = record {
  storage = replicate (k_cheap_prepend + initial_size) 0;
  reader_index = k_cheap_prepend;
  writer_index = k_cheap_prepend;
}

-- `std::copy` of `bytes` to the offset `at`; there is room.
unfoldable pub write_at : ℕ → Bytes → Bytes → Bytes
write_at at bytes store = take at store ++ (bytes ++ drop (at + length bytes) store)

-- `vector::resize`: new elements are zero.
unfoldable pub resize : ℕ → Bytes → Bytes
resize n store = take n store ++ replicate (n - length store) 0

-- `std::search` for CR LF.
unfoldable pub search_crlf : Bytes → Option ℕ
search_crlf [] = none
search_crlf (x ∷ []) = none
search_crlf (x ∷ y ∷ rest) =
    let later = search_crlf (y ∷ rest) in
    if x == b'\r' && y == b'\n' then some 0 else elim later [ none ↦ none | some i ↦ some (suc i) ]

unfoldable pub find_crlf : Buffer → Option ℕ
find_crlf b = search_crlf (contents b)

unfoldable pub find_crlf_from : Buffer → ℕ → Option ℕ
find_crlf_from b start = elim (search_crlf (drop start (contents b))) [
  | none ↦ none
  | some i ↦ some (start + i)
]

unfoldable pub retrieve_all : Buffer → Buffer
retrieve_all b = record b { reader_index = k_cheap_prepend; writer_index = k_cheap_prepend }

unfoldable pub retrieve : ℕ → Buffer → Buffer
unfolding retrieve_all
retrieve len b =
    if ltb len (readable_bytes b)
    then record b { reader_index = b.reader_index + len }
    else retrieve_all b

-- `end` is the offset from `peek()`, so `end - peek()` is the offset itself.
unfoldable pub retrieve_until : ℕ → Buffer → Buffer
retrieve_until end b = retrieve end b

unfoldable pub retrieve_as_string : ℕ → Buffer → Bytes × Buffer
retrieve_as_string len b =
    let n = min len (readable_bytes b) in (take n (drop b.reader_index b.storage), retrieve n b)

unfoldable pub retrieve_all_as_string : Buffer → Bytes × Buffer
retrieve_all_as_string b = retrieve_as_string (readable_bytes b) b

unfoldable pub make_space : ℕ → Buffer → Buffer
make_space len b =
    if ltb (writable_bytes b + prependable_bytes b) (len + k_cheap_prepend)
    then record b { storage = resize (b.writer_index + len) b.storage }
    else record {
      storage = write_at k_cheap_prepend (contents b) b.storage;
      reader_index = k_cheap_prepend;
      writer_index = k_cheap_prepend + readable_bytes b;
    }

unfoldable pub ensure_writable_bytes : ℕ → Buffer → Buffer
ensure_writable_bytes len b = if ltb (writable_bytes b) len then make_space len b else b

unfoldable pub has_written : ℕ → Buffer → Buffer
has_written len b = record b { writer_index = b.writer_index + len }

-- The copy to `begin_write()` and `has_written`, once there is room.
unfoldable pub put_bytes : Bytes → Buffer → Buffer
put_bytes bytes b =
    has_written (length bytes) (record b { storage = write_at b.writer_index bytes b.storage })

unfoldable pub append : Bytes → Buffer → Buffer
append bytes b = put_bytes bytes (ensure_writable_bytes (length bytes) b)

-- What `readv` gives: the errno of a failure, or the bytes that it has put into the vectors.
pub data ReadResult : Type 0 where
  read_error : ℕ → ReadResult
  received : Bytes → ReadResult

abbrev pub k_extra_size : ℕ
k_extra_size = 65536

-- The room that the vectors offer to `readv`.
unfoldable pub read_room : Buffer → ℕ
read_room b =
    if ltb (writable_bytes b) k_extra_size
    then writable_bytes b + k_extra_size
    else writable_bytes b

-- The bytes go into the writable part first, then into `extra`, whose part is appended.
unfoldable pub read_fd : ReadResult → Buffer → Buffer
read_fd (read_error saved_errno) b = b
read_fd (received bytes) b =
    if leb (length bytes) (writable_bytes b)
    then has_written (length bytes) (record b { storage = write_at b.writer_index bytes b.storage })
    else append (drop (writable_bytes b) bytes) (record b {
      storage = write_at b.writer_index (take (writable_bytes b) bytes) b.storage;
      writer_index = length b.storage;
    })
