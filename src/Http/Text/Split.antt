-- ===== src/Http/Text/Split.antt =====
-- `find` and `split_commas`.
use oklib.Common.{
  ◌==◌, length, All, length-append, take-append_exact, drop-append_add, Bytes, ℕ, zero, suc, ◌≤◌,
  ◌≡◌, refl, ap, ◌∙◌, ◌≢◌, Bool, true, false, not, ◌&&◌, none, some, List, [], ◌∷◌, ◌++◌, arith,
}
use oklib.Http.Text.Trim.{trim_ows_plain}
use oklib.Http.Text.{is_ows, is_empty, find, split_commas_fuel, split_commas}

-- No character of the text is `c`.
abbrev pub Lacks : ℕ → Bytes → Type 0
Lacks c = All (λ x. x ≢ c)

pub find-append :
    (c : ℕ) (front rest : Bytes) → Lacks c front → find c (front ++ c ∷ rest) ≡ some (length front)
unfolding find
find-append c [] rest h = ground arith
find-append c (x ∷ xs) rest h = ground (arith, find-append c xs rest h.1)

pub find-Lacks : (c : ℕ) (s : Bytes) → Lacks c s → find c s ≡ none
unfolding find
find-Lacks c [] h = refl
find-Lacks c (x ∷ xs) h = ground (arith, find-Lacks c xs h.1)

-- A text without commas and blanks is its only part.
pub split_commas_plain :
    (s : Bytes)
    → is_empty s ≡ false
    → Lacks b',' s
    → All (λ c. is_ows c ≡ false) s
    → split_commas s ≡ s ∷ []
unfolding split_commas split_commas_fuel is_empty
split_commas_plain [] filled commas plain = absurd (ground arith)
split_commas_plain (x ∷ xs) filled commas plain =
    rw (find-Lacks b',' (x ∷ xs) commas, split_commas_fuel, trim_ows_plain (x ∷ xs) plain) refl

-- The test that no character is `c`, to be run on a literal.
abbrev pub lacks : ℕ → Bytes → Bool
lacks c [] = true
lacks c (x ∷ xs) = not (x == c) && lacks c xs

pub lacks-Lacks : (c : ℕ) (s : Bytes) → lacks c s ≡ true → Lacks c s
lacks-Lacks c [] h = tt
lacks-Lacks c (x ∷ xs) h = (ground arith, lacks-Lacks c xs (ground arith))

-- Parts with a comma between one and the next.
abbrev pub join_commas : List Bytes → Bytes
join_commas [] = []
join_commas (part ∷ []) = part
join_commas (part ∷ next ∷ parts) = part ++ b',' ∷ join_commas (next ∷ parts)

-- A part that is found again: it is not empty, and has no comma and no blank.
pub record IsPart (part : Bytes) : Type 0 where
  pub filled : is_empty part ≡ false
  pub no_comma : Lacks b',' part
  pub no_blank : All (λ c. is_ows c ≡ false) part

take_part :
    (fuel : ℕ) (part rest : Bytes)
    → IsPart part
    → split_commas_fuel (suc fuel) (part ++ b',' ∷ rest) ≡ part ∷ split_commas_fuel fuel rest
unfolding split_commas_fuel is_empty
take_part fuel [] rest p = absurd (ground (arith, p.filled))
take_part fuel (x ∷ xs) rest p =
    rw
      (
        find-append b',' (x ∷ xs) rest p.no_comma,
        take-append_exact (length (x ∷ xs)) (x ∷ xs) (b',' ∷ rest) refl,
        drop-append_add (x ∷ xs) (b',' ∷ rest) 1,
        trim_ows_plain (x ∷ xs) p.no_blank,
        split_commas_fuel,
      )
      refl

last_part : (fuel : ℕ) (part : Bytes) → IsPart part → split_commas_fuel (suc fuel) part ≡ part ∷ []
unfolding split_commas_fuel is_empty
last_part fuel [] p = absurd (ground (arith, p.filled))
last_part fuel (x ∷ xs) p =
    rw (find-Lacks b',' (x ∷ xs) p.no_comma, trim_ows_plain (x ∷ xs) p.no_blank, split_commas_fuel)
      refl

pub is_empty-length : (s : Bytes) → is_empty s ≡ false → 1 ≤ length s
unfolding is_empty
is_empty-length [] h = absurd (ground arith)
is_empty-length (x ∷ xs) h = omega arith

split_join_fuel :
    (fuel : ℕ) (parts : List Bytes)
    → All IsPart parts
    → length (join_commas parts) ≤ fuel
    → split_commas_fuel fuel (join_commas parts) ≡ parts
unfolding split_commas_fuel
split_join_fuel fuel [] h le = refl
split_join_fuel zero (part ∷ []) h le = absurd (omega (arith, is_empty-length part h.0.filled))
split_join_fuel zero (part ∷ next ∷ parts) h le =
    absurd (omega (arith, length-append part (b',' ∷ join_commas (next ∷ parts))))
split_join_fuel (suc fuel) (part ∷ []) h le = last_part fuel part h.0
split_join_fuel (suc fuel) (part ∷ next ∷ parts) h le =
    take_part fuel part (join_commas (next ∷ parts)) h.0
    ∙ ap (◌∷◌ part) (
        split_join_fuel fuel (next ∷ parts) h.1
          (omega (arith, length-append part (b',' ∷ join_commas (next ∷ parts)))))

-- Joined parts are split into the same parts.
pub split_commas-join_commas :
    (parts : List Bytes) → All IsPart parts → split_commas (join_commas parts) ≡ parts
unfolding split_commas
split_commas-join_commas parts h =
    split_join_fuel (length (join_commas parts)) parts h (omega arith)
