-- ===== src/Http/Semantics/Dates.antt =====
-- Dates and times. A time is a number of seconds since 1970, a `time_point` of whole seconds.
use oklib.Common.{
  ltb, leb, ◌==◌, if◌then◌else◌, length, take, drop, Bytes, codes, ℕ, ◌+◌, ◌-◌, ◌*◌, ◌/◌, Bool,
  true, false, not, ◌||◌, Option, none, some, List, [], ◌∷◌,
}
use oklib.Http.Text.{equal, trim_ows}
use oklib.Http.Numbers.{parse_decimal_u64}

-- Integers; `negsuc n` is -(n + 1).
pub data ℤ : Type 0 where
  pos : ℕ → ℤ
  negsuc : ℕ → ℤ

-- The difference of two numbers.
abbrev pub minus : ℕ → ℕ → ℤ
minus a b = if leb b a then pos (a - b) else negsuc (b - a - 1)

-- `a <= b`.
abbrev pub leqℤ : ℤ → ℤ → Bool
leqℤ (pos a) (pos b) = leb a b
leqℤ (pos a) (negsuc b) = false
leqℤ (negsuc a) (pos b) = true
leqℤ (negsuc a) (negsuc b) = leb b a

abbrev pub month_from : ℕ → List Bytes → Bytes → ℕ
month_from i [] month = 0
month_from i (m ∷ ms) month = if equal m month then i + 1 else month_from (i + 1) ms month

abbrev pub months : List Bytes
months =
    codes "Jan"
    ∷ codes "Feb"
    ∷ codes "Mar"
    ∷ codes "Apr"
    ∷ codes "May"
    ∷ codes "Jun"
    ∷ codes "Jul"
    ∷ codes "Aug"
    ∷ codes "Sep"
    ∷ codes "Oct"
    ∷ codes "Nov"
    ∷ codes "Dec"
    ∷ []

unfoldable pub month_index : Bytes → ℕ
month_index month = month_from 0 months month

-- `doy`: the day of a year that begins in March.
abbrev pub day_of_year : ℕ → ℕ → ℕ
day_of_year month day = (153 * (if ltb 2 month then month - 3 else month + 9) + 2) / 5 + day - 1

-- `doe`: the day of an era of 400 years.
abbrev pub day_of_era : ℕ → ℕ → ℕ
day_of_era yoe doy = yoe * 365 + yoe / 4 - yoe / 100 + doy

-- The rest of `days_from_civil`, for the year that begins in March. A division of `int`s is cut off
-- towards 0.
unfoldable pub days_in_eras : ℤ → ℕ → ℤ
days_in_eras (pos y) doy = minus (y / 400 * 146097 + day_of_era (y - y / 400 * 400) doy) 719468
days_in_eras (negsuc n) doy =
    let eras = (n + 1 + 399) / 400 in
    minus (day_of_era (eras * 400 - (n + 1)) doy) (eras * 146097 + 719468)

-- The source computes in `int`. A date has a year of four digits, far within it.
unfoldable pub days_from_civil : ℕ → ℕ → ℕ → ℤ
days_from_civil year month day =
    days_in_eras (if leb month 2 then minus year 1 else pos year) (day_of_year month day)

-- `days * 86400 + seconds`.
abbrev pub at_second : ℤ → ℕ → ℤ
at_second (pos days) seconds = pos (days * 86400 + seconds)
at_second (negsuc n) seconds = minus seconds ((n + 1) * 86400)

abbrev pub second_of_day : ℕ → ℕ → ℕ → ℕ
second_of_day hour minute second = hour * 3600 + minute * 60 + second

unfoldable pub make_time_utc : ℕ → ℕ → ℕ → ℕ → ℕ → ℕ → Option ℤ
make_time_utc year month day hour minute second =
    if ltb month 1
      || ltb 12 month
      || ltb day 1
      || ltb 31 day
      || ltb 23 hour
      || ltb 59 minute
      || ltb 60 second
    then none
    else some (at_second (days_from_civil year month day) (second_of_day hour minute second))

-- `value.substr(from, count)`.
abbrev pub substr : ℕ → ℕ → Bytes → Bytes
substr from count value = take count (drop from value)

-- `substr` and `parse_u64`.
abbrev pub field_number : ℕ → ℕ → Bytes → Option ℕ
field_number from count value = parse_decimal_u64 (substr from count value)

-- The numbers of a date, once they have been read.
unfoldable pub date_of_fields : Option ℕ → Option ℕ → Option ℕ → Option ℕ → Option ℕ → ℕ → Option ℤ
date_of_fields (some day) (some year) (some hour) (some minute) (some second) month =
    if month == 0 then none else make_time_utc year month day hour minute second
date_of_fields _ _ _ _ _ _ = none

unfoldable pub parse_http_date : Bytes → Option ℤ
parse_http_date text =
    let value = trim_ows text in
    if not (length value == 29)
      || not (equal (substr 3 2 value) (codes ", "))
      || not (equal (substr 26 3 value) (codes "GMT"))
    then none
    else date_of_fields (field_number 5 2 value) (field_number 12 4 value) (field_number 17 2 value)
        (field_number 20 2 value) (field_number 23 2 value) (month_index (substr 8 3 value))

unfoldable pub if_modified_since_not_modified : Bytes → ℤ → Bool
if_modified_since_not_modified header last_modified = elim (parse_http_date header) [
  | none ↦ false
  | some since ↦ leqℤ last_modified since
]

unfoldable pub if_unmodified_since_allows : Bytes → ℤ → Bool
if_unmodified_since_allows header last_modified = elim (parse_http_date header) [
  | none ↦ true
  | some since ↦ leqℤ last_modified since
]
