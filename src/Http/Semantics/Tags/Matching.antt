-- ===== src/Http/Semantics/Tags/Matching.antt =====
-- Conditions on a list of entity tags.
use oklib.Common.{
  if◌then◌else◌, le→ltb, Bool-cases, length, take, drop, All, length-append, take-append_exact,
  All-append, Bytes, codes, ℕ, suc, ◌-◌, ◌≡◌, refl, ap, subst, ◌∙◌, ◌↔◌, ◌⊎◌, inl, inr, Bool, true,
  false, ◌||◌, some, List, [], ◌∷◌, ◌++◌, map, append-nil, arith,
}
use oklib.Http.Text.{is_ows, equal, trim_ows}
use oklib.Http.Text.Trim.{trim_ows_plain}
use oklib.Http.Parser.Body.{last_is}
use oklib.Http.Semantics.Tags.{
  is_weak_text, quoted_tag, parse_entity_tag, entity_tags, parse_entity_tag_list,
  strong_entity_tag_equal, weak_entity_tag_equal, any_tag, if_none_match_matches, if_match_matches,
  EntityTag,
}
use oklib.Http.Text.Split.{join_commas, split_commas-join_commas, IsPart}
use oklib.Http.Router.Table.{equal_iff}

-- A tag as it is written.
abbrev text_of : Bool → Bytes → Bytes
text_of false s = b'"' ∷ (s ++ b'"' ∷ [])
text_of true s = b'W' ∷ b'/' ∷ b'"' ∷ (s ++ b'"' ∷ [])

abbrev pub tag_text : EntityTag → Bytes
tag_text t = text_of t.weak t.tag

last_is-append : (c : ℕ) (s : Bytes) → last_is c (s ++ c ∷ []) ≡ true
last_is-append c [] = ground arith
last_is-append c (x ∷ []) = ground arith
last_is-append c (x ∷ y ∷ s) = last_is-append c (y ∷ s)

quoted_tag-text :
    (weak : Bool) (s : Bytes)
    → quoted_tag weak (b'"' ∷ (s ++ b'"' ∷ [])) ≡ some (record { weak = weak; tag = s })
unfolding quoted_tag
quoted_tag-text weak s =
    rw
      (
        whole,
        closed s,
        le→ltb (suc (length (s ++ b'"' ∷ []))) 2 (omega (arith, length-append s (b'"' ∷ []))),
      )
      refl
  where
    whole : take (suc (length (s ++ b'"' ∷ [])) - 2) (s ++ b'"' ∷ []) ≡ s
    whole =
        take-append_exact (suc (length (s ++ b'"' ∷ [])) - 2) s (b'"' ∷ [])
          (omega (arith, length-append s (b'"' ∷ [])))

    closed : (s : Bytes) → last_is b'"' (b'"' ∷ (s ++ b'"' ∷ [])) ≡ true
    closed s = last_is-append b'"' (b'"' ∷ s)

parse_entity_tag-tag_text :
    (t : EntityTag)
    → All (λ c. is_ows c ≡ false) (tag_text t)
    → parse_entity_tag (tag_text t) ≡ some t
unfolding parse_entity_tag
parse_entity_tag-tag_text t h = rw (trim_ows_plain (tag_text t) h) (strength t.weak t.tag)
  where
    strength :
        (w : Bool) (s : Bytes)
        → (if is_weak_text (text_of w s)
            then quoted_tag true (drop 2 (text_of w s))
            else quoted_tag false (text_of w s))
          ≡ some (record { weak = w; tag = s })
    strength true s = quoted_tag-text true s
    strength false [] = quoted_tag-text false []
    strength false (x ∷ xs) = quoted_tag-text false (x ∷ xs)

-- A tag that can stand in a list: no blank and no comma in it.
abbrev pub Listable : EntityTag → Type 0
Listable t = IsPart (tag_text t)

tag_no_star : (t : EntityTag) (rest : Bytes) → equal (tag_text t ++ rest) (codes "*") ≡ false
tag_no_star t rest = star t.weak t.tag
  where
    star : (w : Bool) (s : Bytes) → equal (text_of w s ++ rest) (codes "*") ≡ false
    star true s = unfold equal in refl
    star false s = unfold equal in refl

entity_tags-tag_text : (ts : List EntityTag) → All Listable ts → entity_tags (map tag_text ts) ≡ ts
unfolding entity_tags
entity_tags-tag_text [] h = refl
entity_tags-tag_text (t ∷ ts) h =
    rw
      (
        subst (λ s. equal s (codes "*") ≡ false) (append-nil (tag_text t)) (tag_no_star t []),
        parse_entity_tag-tag_text t h.0.no_blank,
        entity_tags-tag_text ts h.1,
        entity_tags,
      )
      refl

Listable-parts : (ts : List EntityTag) → All Listable ts → All IsPart (map tag_text ts)
Listable-parts [] h = tt
Listable-parts (t ∷ ts) h = (h.0, Listable-parts ts h.1)

-- One of the tags satisfies it.
abbrev pub SomeTag : (EntityTag → Type 0) → List EntityTag → Type 0
SomeTag P [] = ⊥
SomeTag P (t ∷ ts) = P t ⊎ SomeTag P ts

any_tag-SomeTag :
    (P : EntityTag → Type 0) (test : EntityTag → Bool)
    → ((t : EntityTag) → (test t ≡ true) ↔ P t)
    → (ts : List EntityTag) → (any_tag test ts ≡ true) ↔ SomeTag P ts
any_tag-SomeTag P test h [] = (λ e. absurd cc, λ e. absurd e)
any_tag-SomeTag P test h (t ∷ ts) = elim (Bool-cases (test t)) [
  | inl e ↦ ((λ k. inl ((h t).0 e)), (λ k. rw e refl))
  | inr e ↦ (
    (λ k. inr ((any_tag-SomeTag P test h ts).0 (ground arith))),
    back e (any_tag-SomeTag P test h ts).1,
  )
]
  where
    or_right : (a b : Bool) → b ≡ true → (a || b) ≡ true
    or_right a b k = ground arith

    back :
        test t ≡ false
        → (SomeTag P ts → any_tag test ts ≡ true)
        → P t ⊎ SomeTag P ts
        → (test t || any_tag test ts) ≡ true
    back e later (inl k) = rw ((h t).1 k) refl
    back e later (inr k) = or_right (test t) (any_tag test ts) (later k)

-- The list as a header.
abbrev pub tag_list : List EntityTag → Bytes
tag_list ts = join_commas (map tag_text ts)

tag_list_no_blank :
    (ts : List EntityTag) → All Listable ts → All (λ c. is_ows c ≡ false) (tag_list ts)
unfolding is_ows
tag_list_no_blank [] h = tt
tag_list_no_blank (t ∷ []) h = h.0.no_blank
tag_list_no_blank (t ∷ u ∷ ts) h =
    All-append _ (tag_text t) _ h.0.no_blank (refl, tag_list_no_blank (u ∷ ts) h.1)

tag_list_no_star :
    (t : EntityTag) (ts : List EntityTag) → equal (tag_list (t ∷ ts)) (codes "*") ≡ false
tag_list_no_star t [] =
    subst (λ s. equal s (codes "*") ≡ false) (append-nil (tag_text t)) (tag_no_star t [])
tag_list_no_star t (u ∷ ts) = tag_no_star t (b',' ∷ tag_list (u ∷ ts))

-- What the loops look through.
tags_read :
    (t : EntityTag) (ts : List EntityTag)
    → All Listable (t ∷ ts)
    → (equal (trim_ows (tag_list (t ∷ ts))) (codes "*") ≡ false)
      × (parse_entity_tag_list (tag_list (t ∷ ts)) ≡ t ∷ ts)
unfolding parse_entity_tag_list
tags_read t ts h = (
  rw (trim_ows_plain (tag_list (t ∷ ts)) (tag_list_no_blank (t ∷ ts) h)) (tag_list_no_star t ts),
  ap entity_tags (split_commas-join_commas (map tag_text (t ∷ ts)) (Listable-parts (t ∷ ts) h))
      ∙ entity_tags-tag_text (t ∷ ts) h,
)

weak_equal_iff :
    (current t : EntityTag) → (weak_entity_tag_equal t current ≡ true) ↔ (t.tag ≡ current.tag)
unfolding weak_entity_tag_equal
weak_equal_iff current t = equal_iff t.tag current.tag

strong_equal_iff :
    (current t : EntityTag)
    → (strong_entity_tag_equal t current ≡ true)
      ↔ ((t.weak ≡ false) × (current.weak ≡ false) × (t.tag ≡ current.tag))
unfolding strong_entity_tag_equal
strong_equal_iff current t = (
  (λ h. (ground arith, ground arith, (equal_iff t.tag current.tag).0 (ground arith))),
  (λ h. ground (arith, h.0, h.1, (equal_iff t.tag current.tag).1 h.2)),
)

-- A header that lists entity tags, one at least, without blanks and commas in them: `If-None-Match`
-- matches the current tag exactly if one of those listed has the same text, weak or not; `If-Match`
-- matches it exactly if one of those listed has the same text, and neither of the two is weak.
pub if_none_match-tag_list :
    (current t : EntityTag) (ts : List EntityTag)
    → All Listable (t ∷ ts)
    → ((if_none_match_matches (tag_list (t ∷ ts)) current ≡ true)
        ↔ SomeTag (λ u. u.tag ≡ current.tag) (t ∷ ts))
      × ((if_match_matches (tag_list (t ∷ ts)) current ≡ true)
          ↔ SomeTag
              (λ u. (u.weak ≡ false) × (current.weak ≡ false) × (u.tag ≡ current.tag))
              (t ∷ ts))
unfolding if_none_match_matches if_match_matches
if_none_match-tag_list current t ts h =
    let (star, read) = tags_read t ts h in
    (
      (rw (star, read)
          (any_tag-SomeTag (λ u. u.tag ≡ current.tag) (λ u. weak_entity_tag_equal u current)
            (weak_equal_iff current) (t ∷ ts))),
      (rw (star, read)
          (any_tag-SomeTag (λ u. (u.weak ≡ false) × (current.weak ≡ false) × (u.tag ≡ current.tag))
            (λ u. strong_entity_tag_equal u current) (strong_equal_iff current) (t ∷ ts))),
    )
