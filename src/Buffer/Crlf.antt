-- ===== src/Buffer/Crlf.antt =====
-- `find_crlf` finds the first CR LF of the unread bytes.
use oklib.Common.{
  ◌==◌, Bool-cases, Option-cases, length, get_or, take, All, take-append_exact, drop-append_add,
  Bytes, ℕ, zero, suc, ◌+◌, ◌≤◌, ◌<◌, ◌≡◌, refl, ◌∙◌, ◌≢◌, inl, inr, Bool, true, false, ◌&&◌,
  Option, none, some, [], ◌∷◌, ◌++◌, arith,
}
use oklib.Buffer.Invariant.{length-contents, retrieve-IsValid, IsValid}
use oklib.Buffer.Contents.{contents-retrieve, readable-retrieve}
use oklib.Buffer.{readable_bytes, contents, search_crlf, find_crlf, retrieve_until, Buffer}

-- A CR LF stands at offset `i`; offset 0 never reads past the end as one.
abbrev pub crlf_at : Bytes → ℕ → Bool
crlf_at s i = get_or s i 0 == b'\r' && get_or s (suc i) 0 == b'\n'

-- `r` is the least offset of a CR LF in `s`, or `none` where there is no CR LF.
abbrev pub IsFirstCrlf : Bytes → Option ℕ → Type 0
IsFirstCrlf s none = (j : ℕ) → crlf_at s j ≡ false
IsFirstCrlf s (some i) = (crlf_at s i ≡ true) × ((j : ℕ) → j < i → crlf_at s j ≡ false)

no_crlf_in_one : (x j : ℕ) → crlf_at (x ∷ []) j ≡ false
no_crlf_in_one x zero = ground arith
no_crlf_in_one x (suc j) = ground arith

extend_first :
    (x y : ℕ) (rest : Bytes)
    → (x == b'\r' && y == b'\n') ≡ false
    → (r : Option ℕ) → IsFirstCrlf (y ∷ rest) r
    → IsFirstCrlf (x ∷ y ∷ rest) (elim r [ none ↦ none | some i ↦ some (suc i) ])
extend_first x y rest h none f = here
  where
    here : (j : ℕ) → crlf_at (x ∷ y ∷ rest) j ≡ false
    here zero = h
    here (suc j) = f j
extend_first x y rest h (some i) f = (f.0, before)
  where
    before : (j : ℕ) → j < suc i → crlf_at (x ∷ y ∷ rest) j ≡ false
    before zero p = h
    before (suc j) p = f.1 j (omega arith)

search_crlf-IsFirstCrlf : (s : Bytes) → IsFirstCrlf s (search_crlf s)
unfolding search_crlf
search_crlf-IsFirstCrlf [] = λ j. ground arith
search_crlf-IsFirstCrlf (x ∷ []) = no_crlf_in_one x
search_crlf-IsFirstCrlf (x ∷ y ∷ rest) = elim (Bool-cases (x == b'\r' && y == b'\n')) [
  | inl found ↦ rw found (found, λ j p. absurd (omega arith))
  | inr later ↦ rw later (extend_first x y rest later _ (search_crlf-IsFirstCrlf (y ∷ rest)))
]

-- `find_crlf` gives the least offset from `peek()` at which the unread bytes hold CR LF, and
-- nothing exactly when they hold none.
pub find_crlf-IsFirstCrlf : (b : Buffer) → IsFirstCrlf (contents b) (find_crlf b)
unfolding find_crlf
find_crlf-IsFirstCrlf b = search_crlf-IsFirstCrlf (contents b)

-- The CR LF lies whole within the bytes.
pub search_crlf_within : (s : Bytes) {i : ℕ} → search_crlf s ≡ some i → suc (suc i) ≤ length s
unfolding search_crlf
search_crlf_within [] h = cc
search_crlf_within (x ∷ []) h = cc
search_crlf_within (x ∷ y ∷ rest) {i} h = elim (Option-cases (search_crlf (y ∷ rest))) [
  | inl e ↦ ground arith
  | inr (k, e) ↦ ground (arith, search_crlf_within (y ∷ rest) {i = k} e)
]

-- A line that holds no CR LF, not even with the CR that ends it.
abbrev pub IsLine : Bytes → Type 0
IsLine line = search_crlf (line ++ b'\r' ∷ []) ≡ none

pub search_crlf-append :
    (line rest : Bytes)
    → IsLine line
    → search_crlf (line ++ b'\r' ∷ b'\n' ∷ rest) ≡ some (length line)
unfolding search_crlf
search_crlf-append [] rest h = refl
search_crlf-append (x ∷ []) rest h = ground arith
search_crlf-append (x ∷ y ∷ line) rest h =
    elim (Option-cases (search_crlf (y ∷ (line ++ b'\r' ∷ [])))) [
      | inl e ↦ ground (arith, search_crlf-append (y ∷ line) rest e)
      | inr (k, e) ↦ ground arith
    ]

-- The line and its CR LF are unread bytes.
pub find_crlf_within :
    (b : Buffer) {i : ℕ} → IsValid b → find_crlf b ≡ some i → i + 2 ≤ readable_bytes b
unfolding find_crlf
find_crlf_within b v h = omega (arith, search_crlf_within (contents b) h, length-contents b v)

-- Taking a line off leaves a valid buffer with two bytes less at least.
pub retrieve_line :
    (b : Buffer) {i : ℕ}
    → IsValid b
    → find_crlf b ≡ some i
    → IsValid (retrieve_until (i + 2) b)
      × (readable_bytes (retrieve_until (i + 2) b) + 2 ≤ readable_bytes b)
unfolding retrieve_until
retrieve_line b {i} v h = (
  retrieve-IsValid (i + 2) b v,
  omega (arith, readable-retrieve (i + 2) b v, find_crlf_within b v h),
)

-- Text without CR is a line.
pub IsLine-plain : (line : Bytes) → All (λ c. c ≢ b'\r') line → IsLine line
unfolding search_crlf
IsLine-plain [] h = refl
IsLine-plain (x ∷ []) h = ground (arith, h.0)
IsLine-plain (x ∷ y ∷ line) h = ground (arith, h.0, IsLine-plain (y ∷ line) h.1)

-- What a line at the front of the unread bytes gives, and what taking it off leaves.
pub record LineAt (line rest : Bytes) (b : Buffer) : Type 0 where
  pub found : find_crlf b ≡ some (length line)
  pub taken : take (length line) (contents b) ≡ line
  pub left : contents (retrieve_until (length line + 2) b) ≡ rest
  pub valid : IsValid (retrieve_until (length line + 2) b)

pub line_at :
    (line rest : Bytes) (b : Buffer)
    → IsValid b
    → IsLine line
    → contents b ≡ line ++ b'\r' ∷ b'\n' ∷ rest
    → LineAt line rest b
unfolding find_crlf retrieve_until
line_at line rest b v l e = record {
  found = rw e (search_crlf-append line rest l);
  taken = rw e (take-append_exact (length line) line (b'\r' ∷ b'\n' ∷ rest) refl);
  left =
      contents-retrieve (length line + 2) b v
      ∙ (rw e (drop-append_add line (b'\r' ∷ b'\n' ∷ rest) 2));
  valid = retrieve-IsValid (length line + 2) b v;
}
