-- ===== src/Http/Semantics/Written.antt =====
-- A range header that is written and read back.
use oklib.Common.{
  ◌==◌, le→ltb, length, take, All, take-append_exact, drop-append_add, All-append, Bytes, ℕ, ◌^◌,
  ◌≤◌, ◌<◌, ◌≡◌, refl, ap, ap₂, ◌∙◌, ◌≢◌, false, none, some, List, [], ◌∷◌, ◌++◌, map, arith,
}
use oklib.Http.Text.{is_ows, is_empty, trim_front, trim_back, trim_ows}
use oklib.Http.Text.Split.{
  Lacks, find-append, join_commas, is_empty-length, split_commas-join_commas, IsPart,
}
use oklib.Http.Text.Trim.{trim_ows_plain}
use oklib.Http.Numbers.{parse_decimal_u64, digit_char, to_chars}
use oklib.Http.Numbers.Print.{All-decimal, parse_hex_u64-to_chars}
use oklib.Http.Semantics.{
  range_from, range_parts, range_spec, range_specs, range_set, parse_range_header, ByteRangeSpec,
}

-- A range as a client means it.
pub data Range : Type 0 where
  range_between : ℕ → ℕ → Range
  range_on : ℕ → Range
  range_last : ℕ → Range

abbrev pub spec_of : Range → ByteRangeSpec
spec_of (range_between a b) = record { first = some a; last = some b; suffix_length = none }
spec_of (range_on a) = record { first = some a; last = none; suffix_length = none }
spec_of (range_last n) = record { first = none; last = none; suffix_length = some n }

abbrev pub range_text : Range → Bytes
range_text (range_between a b) = to_chars 10 a ++ b'-' ∷ to_chars 10 b
range_text (range_on a) = to_chars 10 a ++ b'-' ∷ []
range_text (range_last n) = b'-' ∷ to_chars 10 n

-- In order, not empty, and of 64 bits.
abbrev pub Meaningful : Range → Type 0
Meaningful (range_between a b) = (a ≤ b) × (b < 2 ^ 64)
Meaningful (range_on a) = a < 2 ^ 64
Meaningful (range_last n) = (1 ≤ n) × (n < 2 ^ 64)

digit_not : (c d : ℕ) → d < 16 → c < b'0' → digit_char d ≢ c
unfolding digit_char
digit_not c d h k = ground arith

digit_not_blank : (d : ℕ) → d < 16 → is_ows (digit_char d) ≡ false
unfolding is_ows digit_char
digit_not_blank d h = ground arith

decimal-Lacks : (c n : ℕ) → c < b'0' → Lacks c (to_chars 10 n)
decimal-Lacks c n k = All-decimal _ (λ d h. digit_not c d h k) n

decimal_no_blank : (n : ℕ) → All (λ c. is_ows c ≡ false) (to_chars 10 n)
decimal_no_blank n = All-decimal _ digit_not_blank n

-- A number is not empty, since it is read.
decimal_filled : (n : ℕ) → n < 2 ^ 64 → is_empty (to_chars 10 n) ≡ false
unfolding is_empty
decimal_filled n h = filled (to_chars 10 n) (parse_hex_u64-to_chars n h).1
  where
    no_number : (m : ℕ) → parse_decimal_u64 [] ≢ some m
    no_number m = unfold parse_decimal_u64 trim_ows trim_front trim_back in λ e. ground (arith, e)

    filled : (s : Bytes) → parse_decimal_u64 s ≡ some n → is_empty s ≡ false
    filled [] e = absurd (no_number n e)
    filled (x ∷ xs) e = refl

append_filled : (s t : Bytes) → is_empty s ≡ false → is_empty (s ++ t) ≡ false
unfolding is_empty
append_filled [] t h = absurd (ground arith)
append_filled (x ∷ xs) t h = refl

range_text-IsPart : (r : Range) → Meaningful r → IsPart (range_text r)
unfolding is_ows
range_text-IsPart (range_between a b) m = record {
  filled = append_filled (to_chars 10 a) _ (decimal_filled a (omega arith));
  no_comma =
      All-append _ (to_chars 10 a) _ (decimal-Lacks b',' a (omega arith))
        ((λ e. absurd (omega arith)), decimal-Lacks b',' b (omega arith));
  no_blank = All-append _ (to_chars 10 a) _ (decimal_no_blank a) (refl, decimal_no_blank b);
}
range_text-IsPart (range_on a) m = record {
  filled = append_filled (to_chars 10 a) _ (decimal_filled a m);
  no_comma =
      All-append _ (to_chars 10 a) _ (decimal-Lacks b',' a (omega arith))
        ((λ e. absurd (omega arith)), tt);
  no_blank = All-append _ (to_chars 10 a) _ (decimal_no_blank a) (refl, tt);
}
range_text-IsPart (range_last n) m = record {
  filled = unfold is_empty in refl;
  no_comma = ((λ e. absurd (omega arith)), decimal-Lacks b',' n (omega arith));
  no_blank = (refl, decimal_no_blank n);
}

range_parts-between :
    (a b : ℕ)
    → a ≤ b
    → b < 2 ^ 64
    → range_parts (to_chars 10 a) (to_chars 10 b) ≡ some (spec_of (range_between a b))
unfolding range_parts range_from
range_parts-between a b h k =
    rw (decimal_filled a (omega arith), (parse_hex_u64-to_chars a (omega arith)).1, range_parts)
      (rw (decimal_filled b k, (parse_hex_u64-to_chars b k).1, le→ltb b a h, range_from) refl)

range_parts-on : (a : ℕ) → a < 2 ^ 64 → range_parts (to_chars 10 a) [] ≡ some (spec_of (range_on a))
unfolding range_parts range_from is_empty
range_parts-on a h =
    rw (decimal_filled a h, (parse_hex_u64-to_chars a h).1, range_parts, range_from) refl

range_parts-last :
    (n : ℕ) → 1 ≤ n → n < 2 ^ 64 → range_parts [] (to_chars 10 n) ≡ some (spec_of (range_last n))
unfolding range_parts is_empty
range_parts-last n p h = ground (arith, (parse_hex_u64-to_chars n h).1)

-- A part that is split at its dash.
range_spec-split :
    (front behind : Bytes)
    → Lacks b'-' front
    → All (λ c. is_ows c ≡ false) front
    → All (λ c. is_ows c ≡ false) behind
    → range_spec (front ++ b'-' ∷ behind) ≡ range_parts front behind
unfolding range_spec
range_spec-split front behind h f b =
    rw (find-append b'-' front behind h, range_spec)
      (ap₂ range_parts
        (ap trim_ows (take-append_exact (length front) front (b'-' ∷ behind) refl)
          ∙ trim_ows_plain front f)
        (ap trim_ows (drop-append_add front (b'-' ∷ behind) 1) ∙ trim_ows_plain behind b))

range_spec-range_text : (r : Range) → Meaningful r → range_spec (range_text r) ≡ some (spec_of r)
range_spec-range_text (range_between a b) m =
    range_spec-split (to_chars 10 a) (to_chars 10 b) (decimal-Lacks b'-' a (omega arith))
      (decimal_no_blank a) (decimal_no_blank b)
    ∙ range_parts-between a b m.0 m.1
range_spec-range_text (range_on a) m =
    range_spec-split (to_chars 10 a) [] (decimal-Lacks b'-' a (omega arith)) (decimal_no_blank a) tt
    ∙ range_parts-on a m
range_spec-range_text (range_last n) m =
    range_spec-split [] (to_chars 10 n) tt tt (decimal_no_blank n) ∙ range_parts-last n m.0 m.1

range_specs-range_text :
    (rs : List Range)
    → All Meaningful rs
    → (range_specs (map range_text rs) ≡ some (map spec_of rs)) × All IsPart (map range_text rs)
unfolding range_specs
range_specs-range_text [] h = (refl, tt)
range_specs-range_text (r ∷ rs) h =
    let (e, p) = range_specs-range_text rs h.1 in
    (rw (range_spec-range_text r h.0, e, range_specs) refl, (range_text-IsPart r h.0, p))

-- Ranges that are written behind a unit, with commas between them, are read back: the unit is not
-- empty and has no equals sign and no blank, there is one range at least, and each is in order, not
-- empty, and of 64 bits.
pub parse_range_header-written :
    (unit : Bytes) (r : Range) (rs : List Range)
    → is_empty unit ≡ false
    → Lacks b'=' unit
    → All (λ c. is_ows c ≡ false) unit
    → All Meaningful (r ∷ rs)
    → parse_range_header (unit ++ b'=' ∷ join_commas (map range_text (r ∷ rs)))
      ≡ some (record { unit = unit; ranges = map spec_of (r ∷ rs) })
unfolding parse_range_header range_set
parse_range_header-written unit r rs filled plain no_blank h =
    let text = join_commas (map range_text (r ∷ rs)) in
    let (e, p) = range_specs-range_text (r ∷ rs) h in
    let found = find-append b'=' unit text plain in
    let named : trim_ows (take (length unit) (unit ++ b'=' ∷ text)) ≡ unit =
      ap trim_ows (take-append_exact (length unit) unit (b'=' ∷ text) refl)
      ∙ trim_ows_plain unit no_blank in
    let split = split_commas-join_commas (map range_text (r ∷ rs)) p in
    rw (found, named, filled, drop-append_add unit (b'=' ∷ text) 1, split, e, parse_range_header)
      (rw (named, not_zero (length unit) (is_empty-length unit filled)) refl)
  where
    not_zero : (n : ℕ) → 1 ≤ n → (n == 0) ≡ false
    not_zero n h = ground arith
