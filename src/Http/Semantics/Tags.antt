-- ===== src/Http/Semantics/Tags.antt =====
-- Entity tags, and the conditions on them.
pub mod Matching
use oklib.Common.{
  ltb, ◌==◌, if◌then◌else◌, length, take, drop, Bytes, codes, ◌-◌, ◌*◌, Bool, true, false, not,
  ◌&&◌, ◌||◌, Option, none, some, List, [], ◌∷◌,
}
use oklib.Http.Text.{equal, trim_ows, split_commas}
use oklib.Http.Parser.Body.{last_is, first_is}

pub record EntityTag : Type 0 where
  pub weak : Bool
  pub tag : Bytes

-- `starts_with("W/")`.
abbrev pub is_weak_text : Bytes → Bool
is_weak_text (w ∷ s ∷ rest) = w == b'W' && s == b'/'
is_weak_text _ = false

-- What is left of the text is to stand in quotes.
unfoldable pub quoted_tag : Bool → Bytes → Option EntityTag
quoted_tag weak value =
    if ltb (length value) 2 || not (first_is b'"' value) || not (last_is b'"' value)
    then none
    else some (record { weak = weak; tag = take (length value - 2) (drop 1 value) })

unfoldable pub parse_entity_tag : Bytes → Option EntityTag
parse_entity_tag value =
    let trimmed = trim_ows value in
    if is_weak_text trimmed then quoted_tag true (drop 2 trimmed) else quoted_tag false trimmed

-- The loop over the parts: those that are no tags are left out.
unfoldable pub entity_tags : List Bytes → List EntityTag
entity_tags [] = []
entity_tags (part ∷ parts) =
    let rest = entity_tags parts in
    if equal part (codes "*")
    then record { weak = false; tag = codes "*" } ∷ rest
    else elim (parse_entity_tag part) [ none ↦ rest | some t ↦ t ∷ rest ]

unfoldable pub parse_entity_tag_list : Bytes → List EntityTag
parse_entity_tag_list value = entity_tags (split_commas value)

unfoldable pub strong_entity_tag_equal : EntityTag → EntityTag → Bool
strong_entity_tag_equal lhs rhs = not lhs.weak && not rhs.weak && equal lhs.tag rhs.tag

unfoldable pub weak_entity_tag_equal : EntityTag → EntityTag → Bool
weak_entity_tag_equal lhs rhs = equal lhs.tag rhs.tag

-- The loop that looks for a tag.
abbrev pub any_tag : (EntityTag → Bool) → List EntityTag → Bool
any_tag test [] = false
any_tag test (t ∷ ts) = test t || any_tag test ts

unfoldable pub if_none_match_matches : Bytes → EntityTag → Bool
if_none_match_matches header current =
    if equal (trim_ows header) (codes "*")
    then true
    else any_tag (λ t. weak_entity_tag_equal t current) (parse_entity_tag_list header)

unfoldable pub if_match_matches : Bytes → EntityTag → Bool
if_match_matches header current =
    if equal (trim_ows header) (codes "*")
    then true
    else any_tag (λ t. strong_entity_tag_equal t current) (parse_entity_tag_list header)
