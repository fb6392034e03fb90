-- ===== src/Http/Context/Chunked.antt =====
-- A chunked body that arrives in pieces: what is still expected of it, state by state.
pub mod Segments
pub mod Rounds
pub mod Pieces
pub mod Whole
use oklib.Common.{
  Option-cases, length, get_or, take, drop, length-append, Bytes, ℕ, ◌+◌, ◌≤◌, ◌≡◌, refl, sym, ap,
  ap₂, ◌∙◌, ◌⊎◌, inl, inr, some, List, [], ◌∷◌, ◌++◌, append_assoc, arith,
}
use oklib.Buffer.{contents, search_crlf, find_crlf, retrieve, retrieve_until, Buffer}
use oklib.Buffer.Invariant.{IsValid}
use oklib.Buffer.Crlf.{search_crlf_within, IsLine, search_crlf-append, line_at}
use oklib.Http.Numbers.{to_chars}
use oklib.Http.Writer.{encode_chunk, write_chunk}
use oklib.Http.Parser.Chunks.{encode_chunk-append, zero_chunk}
use oklib.Http.Parser.Chunks.RoundTrip.{written, joined}
use oklib.Http.Context.{
  StreamingChunkState, reads_size, reads_data, reads_data_crlf, reads_trailers,
}

-- From here on `wire` arrives, of which `stuff` is the body that is still to be delivered and
-- `rest` is what follows the body. The body is in the form that `write_chunk` and `finish` give it.
pub Expects : StreamingChunkState → ℕ → Bytes → Bytes → Bytes → Type 0
Expects reads_size n wire stuff rest =
    (chunks : List Bytes) × (wire ≡ written chunks ++ rest) × (stuff ≡ joined chunks)
Expects reads_data n wire stuff rest =
    (chunk : Bytes) × (chunks : List Bytes) × (length chunk ≡ n)
    × (1 ≤ n)
    × (wire ≡ chunk ++ b'\r' ∷ b'\n' ∷ (written chunks ++ rest))
    × (stuff ≡ chunk ++ joined chunks)
Expects reads_data_crlf n wire stuff rest =
    (chunks : List Bytes) × (wire ≡ b'\r' ∷ b'\n' ∷ (written chunks ++ rest))
    × (stuff ≡ joined chunks)
Expects reads_trailers n wire stuff rest = (wire ≡ b'\r' ∷ b'\n' ∷ rest) × (stuff ≡ [])

-- The line of a size, and what stands behind it.
pub record SizeLine (wire stuff rest : Bytes) : Type 0 where
  pub size : ℕ
  pub later : Bytes
  pub line : wire ≡ to_chars 16 size ++ b'\r' ∷ b'\n' ∷ later
  pub within : size ≤ length stuff
  pub next :
      ((size ≡ 0) × Expects reads_trailers 0 later stuff rest)
      ⊎ ((1 ≤ size) × Expects reads_data size later stuff rest)

pub size_line :
    (chunks : List Bytes) (rest : Bytes) → SizeLine (written chunks ++ rest) (joined chunks) rest
unfolding write_chunk Expects
size_line [] rest = record {
  size = 0;
  later = b'\r' ∷ b'\n' ∷ rest;
  line = zero_chunk rest;
  within = omega arith;
  next = inl (refl, (refl, refl));
}
size_line ([] ∷ chunks) rest = size_line chunks rest
size_line ((x ∷ xs) ∷ chunks) rest = record {
  size = length (x ∷ xs);
  later = (x ∷ xs) ++ b'\r' ∷ b'\n' ∷ (written chunks ++ rest);
  line =
      append_assoc (encode_chunk (x ∷ xs)) (written chunks) rest
      ∙ encode_chunk-append (x ∷ xs) (written chunks ++ rest);
  within = omega (arith, length-append (x ∷ xs) (joined chunks));
  next = inr (omega arith, (x ∷ xs, chunks, refl, omega arith, refl, refl));
}

-- Bytes that have arrived, up to a place in what arrives.
pub record Arrived (line later bytes future : Bytes) : Type 0 where
  pub front : bytes ≡ line ++ drop (length line) bytes
  pub behind_it : drop (length line) bytes ++ future ≡ later

pub pieces-Arrived :
    (line later bytes future : Bytes)
    → bytes ++ future ≡ line ++ later
    → length line ≤ length bytes
    → Arrived line later bytes future
pieces-Arrived [] later bytes future e h = record { front = refl; behind_it = e }
pieces-Arrived (x ∷ xs) later [] future e h = absurd (omega arith)
pieces-Arrived (x ∷ xs) later (y ∷ ys) future e h =
    let a = pieces-Arrived xs later ys future (ap (drop 1) e) (omega arith) in
    record { front = ap₂ ◌∷◌ (ap (λ zs. get_or zs 0 0) e) a.front; behind_it = a.behind_it }

-- The first CR LF stays the first when more arrives.
pub search_crlf-more :
    (s t : Bytes) {i : ℕ} → search_crlf s ≡ some i → search_crlf (s ++ t) ≡ some i
unfolding search_crlf
search_crlf-more [] t h = absurd (cc)
search_crlf-more (x ∷ []) t h = absurd (cc)
search_crlf-more (x ∷ y ∷ s) t {i} h = elim (Option-cases (search_crlf (y ∷ s))) [
  | inl e ↦ ground arith
  | inr (k, e) ↦ ground (arith, search_crlf-more (y ∷ s) t {i = k} e)
]

some-injective : {m n : ℕ} → some m ≡ some n → m ≡ n
some-injective h = cc

-- The line that is found in what has arrived is the line that is expected.
pub found_line :
    (line later future : Bytes) (b : Buffer) {i : ℕ}
    → IsValid b
    → IsLine line
    → contents b ++ future ≡ line ++ b'\r' ∷ b'\n' ∷ later
    → find_crlf b ≡ some i
    → (i ≡ length line)
      × (take i (contents b) ≡ line)
      × (contents (retrieve_until (i + 2) b) ++ future ≡ later)
unfolding find_crlf retrieve_until
found_line line later future b {i} v l e h =
    let at : i ≡ length line = place in
    let a =
      pieces-Arrived (line ++ b'\r' ∷ b'\n' ∷ []) later (contents b) future
        (e ∙ sym (append_assoc line (b'\r' ∷ b'\n' ∷ []) later))
        (omega
          (arith, length-append line (b'\r' ∷ b'\n' ∷ []), search_crlf_within (contents b) h)) in
    let behind_line = drop (length (line ++ b'\r' ∷ b'\n' ∷ [])) (contents b) in
    let split : contents b ≡ line ++ b'\r' ∷ b'\n' ∷ behind_line =
      a.front ∙ append_assoc line (b'\r' ∷ b'\n' ∷ []) behind_line in
    let found = line_at line behind_line b v l split in
    (
      at,
      ap (λ k. take k (contents b)) at ∙ found.taken,
      ap (λ k. contents (retrieve (k + 2) b) ++ future) at
          ∙ ap (λ xs. xs ++ future) found.left
          ∙ a.behind_it,
    )
  where
    place : i ≡ length line
    place = some-injective (
        sym (search_crlf-more (contents b) future h)
        ∙ ap search_crlf e
        ∙ search_crlf-append line later l)
