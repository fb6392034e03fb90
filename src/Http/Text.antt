-- ===== src/Http/Text.antt =====
-- The character tests and `string_view` helpers of src/http/http_parser.cpp (those of
-- http_headers.cpp and http_request.cpp are the same text). A view is its bytes; `tolower` and
-- `isalnum` are those of the C locale.
pub mod Trim
pub mod Split
use oklib.Common.{
  leb, ◌==◌, if◌then◌else◌, length, take, drop, Bytes, codes, ℕ, zero, suc, ◌+◌, Bool, true, false,
  not, ◌&&◌, ◌||◌, Option, none, some, List, [], ◌∷◌, map,
}

unfoldable pub is_ows : ℕ → Bool
is_ows c = c == b' ' || c == b'\t'

abbrev pub within : ℕ → ℕ → ℕ → Bool
within lo hi c = leb lo c && leb c hi

unfoldable pub is_alnum : ℕ → Bool
is_alnum c = within b'0' b'9' c || within b'a' b'z' c || within b'A' b'Z' c

abbrev one_of : Bytes → ℕ → Bool
one_of [] c = false
one_of (x ∷ xs) c = c == x || one_of xs c

unfoldable pub is_token_char : ℕ → Bool
unfolding is_alnum
is_token_char c = is_alnum c || one_of (codes "!#$%&'*+-.^_`|~") c

unfoldable pub to_lower : ℕ → ℕ
to_lower c = if within b'A' b'Z' c then c + 32 else c

unfoldable pub lowercase : Bytes → Bytes
lowercase = map to_lower

-- `==` on two views.
unfoldable pub equal : Bytes → Bytes → Bool
equal [] [] = true
equal (x ∷ xs) (y ∷ ys) = x == y && equal xs ys
equal _ _ = false

unfoldable pub is_empty : Bytes → Bool
is_empty [] = true
is_empty (x ∷ xs) = false

-- `find` for one character; `none` is `npos`.
unfoldable pub find : ℕ → Bytes → Option ℕ
find c [] = none
find c (x ∷ xs) =
    let later = find c xs in
    if x == c then some 0 else elim later [ none ↦ none | some i ↦ some (suc i) ]

-- `find` with a start position.
unfoldable pub find_from : ℕ → ℕ → Bytes → Option ℕ
find_from c start xs = elim (find c (drop start xs)) [ none ↦ none | some i ↦ some (start + i) ]

unfoldable pub trim_front : Bytes → Bytes
trim_front [] = []
trim_front (x ∷ xs) = if is_ows x then trim_front xs else x ∷ xs

-- The loop that removes the last character while it is blank.
unfoldable pub trim_back : Bytes → Bytes
trim_back [] = []
trim_back (x ∷ xs) = let rest = trim_back xs in if is_ows x && is_empty rest then [] else x ∷ rest

unfoldable pub trim_ows : Bytes → Bytes
trim_ows value = trim_back (trim_front value)

-- The loop over the commas; a part is trimmed, and nothing stands behind a last comma.
pub split_commas_fuel : ℕ → Bytes → List Bytes
split_commas_fuel fuel [] = []
split_commas_fuel zero (x ∷ xs) = []
split_commas_fuel (suc fuel) (x ∷ xs) = elim (find b',' (x ∷ xs)) [
  | none ↦ trim_ows (x ∷ xs) ∷ []
  | some comma ↦ trim_ows (take comma (x ∷ xs)) ∷ split_commas_fuel fuel (drop (comma + 1) (x ∷ xs))
]

-- Every round takes a character at least.
unfoldable pub split_commas : Bytes → List Bytes
unfolding split_commas_fuel
split_commas value = split_commas_fuel (length value) value

unfoldable pub all_token : Bytes → Bool
all_token [] = true
all_token (x ∷ xs) = is_token_char x && all_token xs

unfoldable pub is_token : Bytes → Bool
is_token value = not (is_empty value) && all_token value
