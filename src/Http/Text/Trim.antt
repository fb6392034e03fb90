-- ===== src/Http/Text/Trim.antt =====
-- Trimming.
use oklib.Common.{All, Bytes, ◌≡◌, refl, ap, ◌∙◌, false, [], ◌∷◌, arith}
use oklib.Http.Text.{is_ows, is_empty, trim_front, trim_back, trim_ows}

abbrev pub IsTrimmedFront : Bytes → Type 0
IsTrimmedFront [] = Unit
IsTrimmedFront (x ∷ xs) = is_ows x ≡ false

trim_front-IsTrimmedFront : (s : Bytes) → IsTrimmedFront (trim_front s)
unfolding trim_front
trim_front-IsTrimmedFront [] = tt
trim_front-IsTrimmedFront (x ∷ xs) = ground (arith, trim_front-IsTrimmedFront xs)

trim_front_noop : (s : Bytes) → IsTrimmedFront s → trim_front s ≡ s
unfolding trim_front
trim_front_noop [] h = refl
trim_front_noop (x ∷ xs) h = ground arith

trim_back_idem : (s : Bytes) → trim_back (trim_back s) ≡ trim_back s
unfolding trim_back is_empty
trim_back_idem [] = refl
trim_back_idem (x ∷ xs) = ground (arith, trim_back_idem xs)

trim_back-IsTrimmedFront : (s : Bytes) → IsTrimmedFront s → IsTrimmedFront (trim_back s)
unfolding trim_back
trim_back-IsTrimmedFront [] h = tt
trim_back-IsTrimmedFront (x ∷ xs) h = ground arith

-- Trimming twice is trimming once.
pub trim_ows_idem : (s : Bytes) → trim_ows (trim_ows s) ≡ trim_ows s
unfolding trim_ows
trim_ows_idem s =
    ap trim_back (
      trim_front_noop (trim_back (trim_front s))
        (trim_back-IsTrimmedFront (trim_front s) (trim_front-IsTrimmedFront s)))
    ∙ trim_back_idem (trim_front s)

pub trim_front_plain : (s : Bytes) → All (λ c. is_ows c ≡ false) s → trim_front s ≡ s
unfolding trim_front
trim_front_plain [] h = refl
trim_front_plain (x ∷ xs) h = ground (arith, h.0)

pub trim_back_plain : (s : Bytes) → All (λ c. is_ows c ≡ false) s → trim_back s ≡ s
unfolding trim_back
trim_back_plain [] h = refl
trim_back_plain (x ∷ xs) h = ground (arith, h.0, trim_back_plain xs h.1)

pub trim_ows_plain : (s : Bytes) → All (λ c. is_ows c ≡ false) s → trim_ows s ≡ s
unfolding trim_ows
trim_ows_plain s h = ap trim_back (trim_front_plain s h) ∙ trim_back_plain s h

pub trim_ows_nil : trim_ows [] ≡ []
unfolding trim_ows trim_front trim_back
trim_ows_nil = refl
