-- ===== src/Http/Multipart/Search.antt =====
-- `find` for a text.
use oklib.Common.{
  Bool-cases, Option-cases, length, Bytes, ℕ, ◌+◌, ◌≤◌, ◌≡◌, refl, sym, ap, ◌∙◌, inl, inr, true,
  some, [], ◌∷◌, ◌++◌, append_assoc, arith,
}
use oklib.Http.Text.{is_empty}
use oklib.Http.Multipart.Values.{starts_with, find_text}

pub starts_with-append : (text rest : Bytes) → starts_with (text ++ rest) text ≡ true
unfolding starts_with
starts_with-append [] rest = refl
starts_with-append (x ∷ xs) rest = ground (arith, starts_with-append xs rest)

pub length-starts_with :
    (value text : Bytes) → starts_with value text ≡ true → length text ≤ length value
unfolding starts_with
length-starts_with value [] h = omega arith
length-starts_with [] (p ∷ ps) h = absurd cc
length-starts_with (v ∷ vs) (p ∷ ps) h = omega (arith, length-starts_with vs ps (ground arith))

-- Where there is room for the text, what follows plays no part.
starts_with-more :
    (value text rest : Bytes)
    → length text ≤ length value
    → starts_with (value ++ rest) text ≡ starts_with value text
unfolding starts_with
starts_with-more value [] rest h = refl
starts_with-more [] (p ∷ ps) rest h = absurd (omega arith)
starts_with-more (v ∷ vs) (p ∷ ps) rest h =
    ground (arith, starts_with-more vs ps rest (omega arith))

-- What is found lies within.
pub find_text_within :
    (text s : Bytes) {i : ℕ} → find_text text s ≡ some i → i + length text ≤ length s
unfolding find_text
find_text_within [] [] {i} h = unfold is_empty in ground arith
find_text_within (p ∷ ps) [] h = absurd (unfold is_empty in cc)
find_text_within text (x ∷ xs) {i} h = elim (Bool-cases (starts_with (x ∷ xs) text)) [
  | inl e ↦ ground (arith, length-starts_with (x ∷ xs) text e)
  | inr e ↦ elim (Option-cases (find_text text xs)) [
    | inl n ↦ absurd (ground arith)
    | inr (k, f) ↦ ground (arith, find_text_within text xs {i = k} f)
  ]
]

-- What is found first is found first when more follows.
pub find_text-more :
    (text s rest : Bytes) {i : ℕ}
    → find_text text s ≡ some i
    → 1 ≤ length text
    → find_text text (s ++ rest) ≡ some i
unfolding find_text
find_text-more [] [] rest {i} h p = absurd (omega arith)
find_text-more (p ∷ ps) [] rest h _ = absurd (unfold is_empty in cc)
find_text-more text (x ∷ xs) rest {i} h p =
    let within = find_text_within text (x ∷ xs) {i = i} h in
    let same = starts_with-more (x ∷ xs) text rest (omega arith) in
    elim (Bool-cases (starts_with (x ∷ xs) text)) [
      | inl e ↦ ground (arith, same)
      | inr e ↦ elim (Option-cases (find_text text xs)) [
        | inl n ↦ absurd (ground arith)
        | inr (k, f) ↦ ground (arith, same, find_text-more text xs rest {i = k} f p)
      ]
    ]

-- A text that does not begin before the end of `s`.
abbrev pub EndsAt : Bytes → Bytes → Type 0
EndsAt text s = find_text text (s ++ text) ≡ some (length s)

pub find_text-EndsAt :
    (text s rest : Bytes)
    → EndsAt text s
    → 1 ≤ length text
    → find_text text (s ++ (text ++ rest)) ≡ some (length s)
find_text-EndsAt text s rest h p =
    ap (find_text text) (sym (append_assoc s text rest)) ∙ find_text-more text (s ++ text) rest h p
