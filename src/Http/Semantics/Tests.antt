-- ===== src/Http/Semantics/Tests.antt =====
-- Runs of the semantics at fixed inputs.
use oklib.Common.{codes, ◌+◌, ◌-◌, ◌≡◌, refl, ◌↔◌, true, false, some, [], ◌∷◌, ◌++◌, map, arith}
use oklib.Http.Text.{is_ows, equal, is_empty, find, trim_front, trim_back, trim_ows, split_commas}
use oklib.Http.Text.Split.{lacks-Lacks, join_commas}
use oklib.Http.Numbers.{digit_value, read_digits, from_chars_u64, parse_decimal_u64}
use oklib.Http.Semantics.{
  range_from, range_parts, range_spec, range_specs, range_set, parse_range_header,
  parse_length_or_star, content_positions, content_range_rest, parse_content_range_header,
}
use oklib.Http.Semantics.Content.{parse_content_range_header-IsContentRange, IsContentRange}
use oklib.Http.Semantics.Written.{
  spec_of, range_text, parse_range_header-written, range_between, range_on, range_last,
}
use oklib.Http.Semantics.Tags.{
  quoted_tag, parse_entity_tag, entity_tags, parse_entity_tag_list, weak_entity_tag_equal,
  if_none_match_matches, if_match_matches, EntityTag,
}
use oklib.Http.Semantics.Tags.Matching.{
  tag_text, Listable, SomeTag, tag_list, if_none_match-tag_list,
}
use oklib.Http.Semantics.Dates.{
  minus, month_index, days_in_eras, days_from_civil, make_time_utc, date_of_fields, parse_http_date,
  pos,
}
use oklib.Http.Semantics.Calendar.{
  is_leap, days_before_year, days_before_month, days_from_civil_lem,
}

header_date : parse_http_date (codes "Sun, 06 Nov 1994 08:49:37 GMT") ≡ some (pos 784111777)
unfolding parse_http_date date_of_fields make_time_utc days_from_civil days_in_eras month_index
    parse_decimal_u64 from_chars_u64 read_digits digit_value trim_ows trim_front trim_back is_ows
    is_empty equal
header_date = refl

-- A day that does not exist is the day that its number of days gives: the 3rd of March.
day_that_is_not :
    parse_http_date (codes "Sun, 31 Feb 2021 00:00:00 GMT")
    ≡ parse_http_date (codes "Wed, 03 Mar 2021 00:00:00 GMT")
unfolding parse_http_date date_of_fields make_time_utc days_from_civil days_in_eras month_index
    parse_decimal_u64 from_chars_u64 read_digits digit_value trim_ows trim_front trim_back is_ows
    is_empty equal
day_that_is_not = refl

-- A tag with a comma in its text is cut at the comma, and does not match itself.
comma_in_tag :
    if_none_match_matches (codes "\"a,b\"") (record { weak = false; tag = codes "a,b" }) ≡ false
unfolding if_none_match_matches parse_entity_tag_list entity_tags parse_entity_tag quoted_tag
    weak_entity_tag_equal split_commas trim_ows trim_front trim_back is_ows is_empty equal find
comma_in_tag = refl

range_header :
    parse_range_header (codes "bytes=0-4, -7,3-")
    ≡ some (record {
      unit = codes "bytes";
      ranges = map spec_of (range_between 0 4 ∷ range_last 7 ∷ range_on 3 ∷ []);
    })
unfolding parse_range_header range_set range_specs range_spec range_parts range_from split_commas
    parse_decimal_u64 from_chars_u64 read_digits digit_value trim_ows trim_front trim_back is_ows
    is_empty find
range_header = refl

parse_range_header-written_example :
    parse_range_header
      (codes "bytes" ++ b'=' ∷ join_commas (map range_text (range_between 0 4 ∷ range_last 7 ∷ [])))
    ≡ some (record {
      unit = codes "bytes";
      ranges = map spec_of (range_between 0 4 ∷ range_last 7 ∷ []);
    })
unfolding is_empty is_ows
parse_range_header-written_example =
    parse_range_header-written (codes "bytes") (range_between 0 4) (range_last 7 ∷ []) refl
      (lacks-Lacks b'=' (codes "bytes") refl) (refl, (refl, (refl, (refl, (refl, tt)))))
      ((omega arith, omega arith), ((omega arith, omega arith), tt))

content_range :
    parse_content_range_header (codes "bytes 2-5/9")
    ≡ some (record {
      unit = codes "bytes";
      unsatisfied = false;
      first = some 2;
      last = some 5;
      complete_length = some 9;
    })
unfolding parse_content_range_header content_range_rest content_positions parse_length_or_star
    parse_decimal_u64 from_chars_u64 read_digits digit_value trim_ows trim_front trim_back is_ows
    is_empty equal find
content_range = refl

parse_content_range_header-IsContentRange_example : IsContentRange (record {
  unit = codes "bytes";
  unsatisfied = false;
  first = some 2;
  last = some 5;
  complete_length = some 9;
})
parse_content_range_header-IsContentRange_example =
    parse_content_range_header-IsContentRange (codes "bytes 2-5/9") _ content_range

abbrev strong_tag : EntityTag
strong_tag = record { weak = false; tag = codes "x1" }

abbrev weak_tag : EntityTag
weak_tag = record { weak = true; tag = codes "x1" }

strong_tag-Listable : Listable strong_tag
unfolding is_empty is_ows
strong_tag-Listable = record {
  filled = refl;
  no_comma = lacks-Lacks b',' (tag_text strong_tag) refl;
  no_blank = (refl, (refl, (refl, (refl, tt))));
}

if_none_match-tag_list_example :
    ((if_none_match_matches (tag_list (strong_tag ∷ [])) weak_tag ≡ true)
      ↔ SomeTag (λ u. u.tag ≡ codes "x1") (strong_tag ∷ []))
    × ((if_match_matches (tag_list (strong_tag ∷ [])) weak_tag ≡ true)
        ↔ SomeTag (λ u. (u.weak ≡ false) × (true ≡ false) × (u.tag ≡ codes "x1")) (strong_tag ∷ []))
if_none_match-tag_list_example =
    if_none_match-tag_list weak_tag strong_tag [] (strong_tag-Listable, tt)

days_from_civil_lem_example :
    days_from_civil 0 2 29
    ≡ minus (days_before_year 0 + days_before_month (is_leap 0) 2 + (29 - 1)) 719528
days_from_civil_lem_example = days_from_civil_lem 0 2 29 (omega arith) (omega arith) (omega arith)
