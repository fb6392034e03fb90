-- ===== src/Buffer/Contents.antt =====
-- The buffer as a queue of bytes: every operation of Buffer.antt acts on `contents` alone.
use oklib.Common.{
  ltb, leb, ltb→lt, Bool-cases, length, take, drop, replicate, length-take, length-drop,
  take-append-drop, take-append_le, drop-append_le, take-append_exact, drop-append_exact, take_all,
  drop_all, drop-drop, drop-take, take-take, take-append_ge, Bytes, ℕ, suc, ◌+◌, ◌-◌, ◌≤◌, ◌<◌, min,
  ◌≡◌, refl, sym, ap, ◌∙◌, ◌≡⟨◌⟩◌, ◌∎, inl, inr, [], ◌++◌, append_assoc, arith,
}
use oklib.Buffer.{
  k_cheap_prepend, readable_bytes, writable_bytes, prependable_bytes, contents, write_at, resize,
  retrieve_all, retrieve, retrieve_as_string, retrieve_all_as_string, make_space,
  ensure_writable_bytes, has_written, put_bytes, append, read_fd, Buffer, received,
}
use oklib.Buffer.Invariant.{length-contents, ensure-IsValid, ensure_room, full-IsValid, IsValid}

-- The part of `store` from `r` up to `w`.
abbrev window : ℕ → ℕ → Bytes → Bytes
window r w store = take (w - r) (drop r store)

length-window :
    (r w : ℕ) (store : Bytes) → r ≤ w → w ≤ length store → length (window r w store) ≡ w - r
length-window r w store h k = omega (arith, length-take (w - r) (drop r store), length-drop r store)

-- A write behind the window leaves it, and extends it by what is written.
window-write_at :
    (r w : ℕ) (bytes store : Bytes)
    → r ≤ w
    → w + length bytes ≤ length store
    → window r (w + length bytes) (write_at w bytes store) ≡ window r w store ++ bytes
unfolding write_at
window-write_at r w bytes store h k =
    window r (w + length bytes) (take w store ++ (bytes ++ tail))
    ≡⟨ ap (take (w + length bytes - r))
        (drop-append_le r (take w store) (bytes ++ tail) (omega (arith, length-take w store))) ⟩
      take (w + length bytes - r) (drop r (take w store) ++ (bytes ++ tail))
    ≡⟨ ap (λ t. take (w + length bytes - r) (t ++ (bytes ++ tail))) (drop-take r w store) ⟩
      take (w + length bytes - r) (window r w store ++ (bytes ++ tail))
    ≡⟨ take-append_ge (w + length bytes - r) (window r w store) (bytes ++ tail)
        (omega (arith, length-window r w store h (omega arith))) ⟩
      window r w store ++ take (w + length bytes - r - length (window r w store)) (bytes ++ tail)
    ≡⟨ ap (◌++◌ (window r w store)) (
        take-append_exact (w + length bytes - r - length (window r w store)) bytes tail
          (omega (arith, length-window r w store h (omega arith)))) ⟩
      window r w store ++ bytes ∎
  where
    tail : Bytes
    tail = drop (w + length bytes) store

window-resize :
    (r w n : ℕ) (store : Bytes)
    → r ≤ w
    → w ≤ length store
    → length store ≤ n
    → window r w (resize n store) ≡ window r w store
unfolding resize
window-resize r w n store h k l =
    rw (take_all n store l, drop-append_le r store pad (omega arith))
      (take-append_le (w - r) (drop r store) pad (omega (arith, length-drop r store)))
  where
    pad : Bytes
    pad = replicate (n - length store) 0

-- Moving the window to the front keeps it.
window_moved :
    (p : ℕ) (bytes store : Bytes)
    → p + length bytes ≤ length store
    → window p (p + length bytes) (write_at p bytes store) ≡ bytes
unfolding write_at
window_moved p bytes store h =
    rw (drop-append_exact p (take p store) _ (omega (arith, length-take p store)))
      (take-append_exact (p + length bytes - p) bytes _ (omega arith))

contents_moved :
    (b : Buffer)
    → IsValid b
    → k_cheap_prepend + readable_bytes b ≤ length b.storage
    → contents (record {
      storage = write_at k_cheap_prepend (contents b) b.storage;
      reader_index = k_cheap_prepend;
      writer_index = k_cheap_prepend + readable_bytes b;
    })
      ≡ contents b
unfolding contents
contents_moved b v h =
    ap (λ k. take (8 + k - 8) (drop 8 (write_at 8 (contents b) b.storage)))
      (sym (length-contents b v))
    ∙ window_moved 8 (contents b) b.storage (omega (arith, length-contents b v))

pub contents-make_space :
    (n : ℕ) (b : Buffer) → IsValid b → writable_bytes b < n → contents (make_space n b) ≡ contents b
unfolding make_space
contents-make_space n b v h =
    elim (Bool-cases (ltb (writable_bytes b + prependable_bytes b) (n + k_cheap_prepend))) [
      | inl grow ↦ rw grow (
          unfold contents in
          window-resize b.reader_index b.writer_index (b.writer_index + n) b.storage v.ordered
            v.fits (omega arith))
      | inr move ↦ rw move (contents_moved b v (ground arith))
    ]

pub contents-ensure :
    (n : ℕ) (b : Buffer) → IsValid b → contents (ensure_writable_bytes n b) ≡ contents b
unfolding ensure_writable_bytes
contents-ensure n b v = ground (arith, contents-make_space n b v)

pub contents-put_bytes :
    (bytes : Bytes) (b : Buffer)
    → IsValid b
    → length bytes ≤ writable_bytes b
    → contents (put_bytes bytes b) ≡ contents b ++ bytes
unfolding put_bytes has_written contents
contents-put_bytes bytes b v h =
    window-write_at b.reader_index b.writer_index bytes b.storage v.ordered (omega (arith, v.fits))

-- Appending adds the bytes at the end, whatever the room and whichever way it is made.
pub contents-append :
    (bytes : Bytes) (b : Buffer) → IsValid b → contents (append bytes b) ≡ contents b ++ bytes
unfolding append
contents-append bytes b v =
    contents-put_bytes bytes (ensure_writable_bytes (length bytes) b)
      (ensure-IsValid (length bytes) b v) (ensure_room (length bytes) b v)
    ∙ ap (λ t. t ++ bytes) (contents-ensure (length bytes) b v)

contents_full :
    (bytes : Bytes) (b : Buffer)
    → IsValid b
    → length bytes ≡ writable_bytes b
    → contents (record b {
      storage = write_at b.writer_index bytes b.storage;
      writer_index = length b.storage;
    })
      ≡ contents b ++ bytes
unfolding contents
contents_full bytes b v h =
    ap (λ w. window b.reader_index w (write_at b.writer_index bytes b.storage)) filled
    ∙ window-write_at b.reader_index b.writer_index bytes b.storage v.ordered
        (omega (arith, v.fits))
  where
    filled : length b.storage ≡ b.writer_index + length bytes
    filled = omega (arith, v.fits)

drop_at_most : (n k : ℕ) (xs : Bytes) → length xs ≡ k → drop (min n k) xs ≡ drop n xs
drop_at_most n k xs e = elim (Bool-cases (leb n k)) [
  | inl le ↦ ap (λ t. drop t xs) (least n k (ground arith))
  | inr gt ↦ drop_all (min n k) xs (ground arith) ∙ sym (drop_all n xs (ground arith))
]
  where
    least : (i j : ℕ) → i ≤ j → min i j ≡ i
    least i j h = omega arith

contents-retrieve_lt :
    (n : ℕ) (b : Buffer)
    → IsValid b
    → n < readable_bytes b
    → contents (record b { reader_index = b.reader_index + n }) ≡ drop n (contents b)
unfolding contents
contents-retrieve_lt n b v h =
    rw
      (
        drop-take n (readable_bytes b) (drop b.reader_index b.storage),
        drop-drop n b.reader_index b.storage,
      )
      (ap (λ k. take k (drop (b.reader_index + n) b.storage)) (regroup))
  where
    regroup : b.writer_index - (b.reader_index + n) ≡ readable_bytes b - n
    regroup = omega arith

pub contents-retrieve_all : (b : Buffer) → contents (retrieve_all b) ≡ []
unfolding contents retrieve_all
contents-retrieve_all b = refl

-- Retrieving drops bytes from the front, and all of them when more are asked for.
pub contents-retrieve :
    (n : ℕ) (b : Buffer) → IsValid b → contents (retrieve n b) ≡ drop n (contents b)
unfolding retrieve
contents-retrieve n b v = elim (Bool-cases (ltb n (readable_bytes b))) [
  | inl some_left ↦ rw some_left (contents-retrieve_lt n b v (ltb→lt _ _ some_left))
  | inr none_left ↦ rw none_left (
      contents-retrieve_all b ∙ sym (drop_all n (contents b) (ground (arith, length-contents b v))))
]

pub retrieve_as_string_lem :
    (n : ℕ) (b : Buffer)
    → IsValid b
    → ((retrieve_as_string n b).0 ≡ take n (contents b))
      × (contents (retrieve_as_string n b).1 ≡ drop n (contents b))
unfolding retrieve_as_string
retrieve_as_string_lem n b v = (
  (unfold contents in sym (take-take n (readable_bytes b) (drop b.reader_index b.storage))),
  dropped,
)
  where
    dropped : contents (retrieve (min n (readable_bytes b)) b) ≡ drop n (contents b)
    dropped =
        contents-retrieve (min n (readable_bytes b)) b v
        ∙ drop_at_most n (readable_bytes b) (contents b) (length-contents b v)

pub retrieve_all_as_string_lem :
    (b : Buffer)
    → IsValid b
    → ((retrieve_all_as_string b).0 ≡ contents b) × (contents (retrieve_all_as_string b).1 ≡ [])
unfolding retrieve_all_as_string
retrieve_all_as_string_lem b v = (
  (retrieve_as_string_lem (readable_bytes b) b v).0
      ∙ take_all (readable_bytes b) (contents b) (omega (arith, length-contents b v)),
  (retrieve_as_string_lem (readable_bytes b) b v).1
      ∙ drop_all (readable_bytes b) (contents b) (omega (arith, length-contents b v)),
)

-- What `readv` can deliver of `bytes` lands behind the unread bytes, in order, also when it
-- overflows the writable part.
pub contents-read_fd :
    (bytes : Bytes) (b : Buffer)
    → IsValid b
    → contents (read_fd (received bytes) b) ≡ contents b ++ bytes
unfolding read_fd
contents-read_fd bytes b v = elim (Bool-cases (leb (length bytes) (writable_bytes b))) [
  | inl small ↦ rw small (unfold put_bytes in contents-put_bytes bytes b v (ground arith))
  | inr large ↦ rw large (overflow (ground arith))
]
  where
    first : Bytes
    first = take (writable_bytes b) bytes

    rest : Bytes
    rest = drop (writable_bytes b) bytes

    full : Buffer
    full = record b {
      storage = write_at b.writer_index first b.storage;
      writer_index = length b.storage;
    }

    overflow : writable_bytes b < length bytes → contents (append rest full) ≡ contents b ++ bytes
    overflow h =
        contents-append rest full
          (full-IsValid first b v (omega (arith, length-take (writable_bytes b) bytes)))
        ∙ ap (λ t. t ++ rest)
            (contents_full first b v (omega (arith, length-take (writable_bytes b) bytes)))
        ∙ append_assoc (contents b) first rest
        ∙ ap (◌++◌ (contents b)) (take-append-drop (writable_bytes b) bytes)

pub readable-retrieve :
    (n : ℕ) (b : Buffer) → IsValid b → readable_bytes (retrieve n b) ≡ readable_bytes b - n
unfolding retrieve retrieve_all
readable-retrieve n b v = ground arith

-- Taking bytes off makes progress.
pub readable-retrieve_lt :
    (n : ℕ) (b : Buffer) (bound : ℕ)
    → IsValid b
    → 2 ≤ n
    → 2 ≤ readable_bytes b
    → readable_bytes b < suc bound
    → readable_bytes (retrieve n b) < bound
readable-retrieve_lt n b bound v h k l = omega (arith, readable-retrieve n b v)
