-- ===== src/Http/Multipart/Whole.antt =====
-- The parser of a whole body: it ends, and what is put together is taken apart again.
use oklib.Common.{
  ltb, le→ltb, Bool-cases, Option-cases, length, take, drop, All, length-append, length-drop,
  take-append_exact, drop-append_exact, drop-append_add, Bytes, codes, ℕ, zero, suc, ◌+◌, ◌≤◌, ◌<◌,
  ◌≡◌, refl, sym, ap, ap₂, ◌∙◌, inl, inr, Option, none, some, List, [], ◌∷◌, ◌++◌, map, append-nil,
  append_assoc, arith,
}
use oklib.Http.Multipart.Values.{starts_with, find_text, crlf}
use oklib.Http.Multipart.{
  begin_part, double_crlf, part_with, part_behind, part_round, parts_loop, multipart_boundary,
  parse_multipart_form_data, MultipartPart, MultipartParseOptions, malformed_body,
  MultipartParseResult, parsed, failure, PartRound, part_returns, part_goes_on,
}
use oklib.Http.Multipart.Search.{starts_with-append, length-starts_with, EndsAt, find_text-EndsAt}

-- A round that goes on has less to read.
abbrev Shorter : Bytes → PartRound → Type 0
Shorter rest (part_returns r) = Unit
Shorter rest (part_goes_on later parts) = length later < length rest

part_with-Shorter :
    (options : MultipartParseOptions) (delimiter block content : Bytes) (parts : List MultipartPart)
    (end : Option ℕ) (rest : Bytes)
    → length content < length rest
    → Shorter rest (part_with options delimiter block content parts end)
unfolding part_with
part_with-Shorter options delimiter block content parts none rest h =
    elim (begin_part options block [])
      as (λ x. Shorter rest (elim x [
        | inr e ↦ part_returns (failure e)
        | inl part ↦ part_returns (failure malformed_body)
      ])) [ inr e ↦ tt | inl part ↦ tt ]
part_with-Shorter options delimiter block content parts (some d) rest h =
    ground (arith, length-drop (d + length delimiter) content)

part_round-Shorter :
    (options : MultipartParseOptions) (delimiter rest : Bytes) (parts : List MultipartPart)
    → Shorter rest (part_round options delimiter rest parts)
unfolding part_round part_behind
part_round-Shorter options delimiter rest parts =
    elim (Bool-cases (starts_with rest (codes "--"))) [
      | inl e ↦ rw e tt
      | inr e ↦ elim (Bool-cases (starts_with rest crlf)) [
        | inr c ↦ rw (e, c) tt
        | inl c ↦ elim (Option-cases (find_text double_crlf (drop 2 rest))) [
          | inl n ↦ rw (e, c, n) tt
          | inr (i, f) ↦
              rw (e, c, f)
                (part_with-Shorter options delimiter (take i (drop 2 rest))
                  (drop (i + 4) (drop 2 rest)) parts _ rest
                  (omega (
                    arith,
                    length-drop (i + 4) (drop 2 rest),
                    length-drop 2 rest,
                    length-starts_with rest crlf c,
                  )))
        ]
      ]
    ]

module _ (options : MultipartParseOptions) (delimiter : Bytes) where
  after_round :
      (fuel : ℕ) (rest : Bytes) (parts : List MultipartPart) (x : PartRound)
      → ((later : Bytes) (more : List MultipartPart)
          → length later < fuel
          → (r : MultipartParseResult) × (parts_loop fuel options delimiter later more ≡ some r))
      → part_round options delimiter rest parts ≡ x
      → Shorter rest x
      → length rest < suc fuel
      → (r : MultipartParseResult) × (parts_loop (suc fuel) options delimiter rest parts ≡ some r)
  unfolding parts_loop
  after_round fuel rest parts (part_returns r) loop e s h = rw (e, parts_loop) (r, refl)
  after_round fuel rest parts (part_goes_on later more) loop e s h =
      rw (e, parts_loop) (loop later more (omega arith))

  pub parts_loop_total :
      (fuel : ℕ) (rest : Bytes) (parts : List MultipartPart)
      → length rest < fuel
      → (r : MultipartParseResult) × (parts_loop fuel options delimiter rest parts ≡ some r)
  unfolding parts_loop
  parts_loop_total zero rest parts h = absurd (omega arith)
  parts_loop_total (suc fuel) rest parts h =
      after_round fuel rest parts _ (parts_loop_total fuel) refl
        (part_round-Shorter options delimiter rest parts) h

-- A part as it is sent: the block of its headers, and the part that it gives.
pub record Sent : Type 0 where
  pub block : Bytes
  pub part : MultipartPart

-- The headers give the part, within the limit; the empty line does not begin in them, nor the
-- delimiter in the body.
pub record CanBeSent (options : MultipartParseOptions) (delimiter : Bytes) (s : Sent) : Type 0 where
  pub gives : begin_part options s.block s.part.body ≡ inl s.part
  pub block_ends : EndsAt double_crlf s.block
  pub body_ends : EndsAt delimiter s.part.body

-- What stands behind a boundary: the parts that are left, each with a boundary behind it, and the
-- end.
abbrev pub rendered : Bytes → List Sent → Bytes → Bytes
rendered delimiter [] epilogue = codes "--" ++ epilogue
rendered delimiter (s ∷ more) epilogue =
    crlf
    ++ (s.block
        ++ (double_crlf ++ (s.part.body ++ (delimiter ++ rendered delimiter more epilogue))))

sent_content :
    (options : MultipartParseOptions) (delimiter later : Bytes) (s : Sent)
    (parts : List MultipartPart)
    → CanBeSent options delimiter s
    → 1 ≤ length delimiter
    → length parts < options.max_parts
    → part_with options delimiter s.block
        (s.part.body ++ (delimiter ++ later))
        parts
        (find_text delimiter (s.part.body ++ (delimiter ++ later)))
      ≡ part_goes_on later (parts ++ s.part ∷ [])
unfolding part_with
sent_content options delimiter later s parts c p h =
    let content = s.part.body ++ (delimiter ++ later) in
    let taken = take-append_exact (length s.part.body) s.part.body (delimiter ++ later) refl in
    let room =
      le→ltb options.max_parts (length (parts ++ s.part ∷ []))
        (omega (arith, length-append parts (s.part ∷ []))) in
    rw (find_text-EndsAt delimiter s.part.body later c.body_ends p, taken, c.gives, room, part_with)
      (ap (λ rest. part_goes_on rest (parts ++ s.part ∷ []))
        (drop-append_add s.part.body (delimiter ++ later) (length delimiter)
          ∙ drop-append_exact (length delimiter) delimiter later refl))

sent_round :
    (options : MultipartParseOptions) (delimiter later : Bytes) (s : Sent)
    (parts : List MultipartPart)
    → CanBeSent options delimiter s
    → 1 ≤ length delimiter
    → length parts < options.max_parts
    → part_round options delimiter
        (crlf ++ (s.block ++ (double_crlf ++ (s.part.body ++ (delimiter ++ later)))))
        parts
      ≡ part_goes_on later (parts ++ s.part ∷ [])
unfolding part_round part_behind starts_with
sent_round options delimiter later s parts c p h =
    let content = s.part.body ++ (delimiter ++ later) in
    let rest = s.block ++ (double_crlf ++ content) in
    ap (part_behind options delimiter rest parts)
      (find_text-EndsAt double_crlf s.block content c.block_ends (omega arith))
    ∙ ap₂ (λ block after. part_with options delimiter block after parts (find_text delimiter after))
        (take-append_exact (length s.block) s.block (double_crlf ++ content) refl)
        (drop-append_add s.block (double_crlf ++ content) 4)
    ∙ sent_content options delimiter later s parts c p h

-- A body that is put together from parts is taken apart into them.
parts_loop-rendered :
    (fuel : ℕ) (options : MultipartParseOptions) (delimiter epilogue : Bytes) (ss : List Sent)
    (parts : List MultipartPart)
    → All (CanBeSent options delimiter) ss
    → 1 ≤ length delimiter
    → length parts + length ss ≤ options.max_parts
    → length ss < fuel
    → parts_loop fuel options delimiter (rendered delimiter ss epilogue) parts
      ≡ some (parsed (parts ++ map (λ (s : Sent). s.part) ss))
unfolding parts_loop
parts_loop-rendered zero options delimiter epilogue ss parts c p h l = absurd (omega arith)
parts_loop-rendered (suc fuel) options delimiter epilogue [] parts c p h l =
    rw (last_round options delimiter epilogue parts, parts_loop)
      (ap (λ ps. some (parsed ps)) (sym (append-nil parts)))
  where
    last_round :
        (options : MultipartParseOptions) (delimiter epilogue : Bytes) (parts : List MultipartPart)
        → part_round options delimiter (codes "--" ++ epilogue) parts ≡ part_returns (parsed parts)
    last_round options delimiter epilogue parts = unfold part_round starts_with in refl
parts_loop-rendered (suc fuel) options delimiter epilogue (s ∷ ss) parts c p h l =
    rw
      (
        sent_round options delimiter (rendered delimiter ss epilogue) s parts c.0 p (omega arith),
        parts_loop,
      )
      (parts_loop-rendered fuel options delimiter epilogue ss (parts ++ s.part ∷ []) c.1 p
          (omega (arith, length-append parts (s.part ∷ []))) (omega arith)
        ∙ ap (λ ps. some (parsed ps))
            (append_assoc parts (s.part ∷ []) (map (λ (s : Sent). s.part) ss)))

-- Every part takes a byte at least.
length-rendered :
    (delimiter : Bytes) (ss : List Sent) (epilogue : Bytes)
    → length ss ≤ length (rendered delimiter ss epilogue)
length-rendered delimiter [] epilogue = omega arith
length-rendered delimiter (s ∷ ss) epilogue = omega (
  arith,
  length-rendered delimiter ss epilogue,
  length-append s.block
      (double_crlf ++ (s.part.body ++ (delimiter ++ rendered delimiter ss epilogue))),
  length-append s.part.body (delimiter ++ rendered delimiter ss epilogue),
  length-append delimiter (rendered delimiter ss epilogue),
)

-- A body that is put together from parts, under a content type with a boundary. The headers of a
-- part give that part within the limit, no empty line begins in them and no delimiter in its body;
-- there are as many parts as the options allow at most, and the whole body is within its limit.
-- Then it is taken apart into exactly those parts, in their order, whatever follows the last
-- boundary.
pub parse_multipart-rendered :
    (content_type boundary epilogue : Bytes) (options : MultipartParseOptions) (ss : List Sent)
    → multipart_boundary content_type ≡ some boundary
    → All (CanBeSent options (crlf ++ (codes "--" ++ boundary))) ss
    → length ss ≤ options.max_parts
    → length ((codes "--" ++ boundary) ++ rendered (crlf ++ (codes "--" ++ boundary)) ss epilogue)
      ≤ options.max_body_bytes
    → parse_multipart_form_data content_type
        ((codes "--" ++ boundary) ++ rendered (crlf ++ (codes "--" ++ boundary)) ss epilogue)
        options
      ≡ some (parsed (map (λ (s : Sent). s.part) ss))
unfolding parse_multipart_form_data
parse_multipart-rendered content_type boundary epilogue options ss e c h l =
    let marker = codes "--" ++ boundary in
    let delimiter = crlf ++ marker in
    let text = rendered delimiter ss epilogue in
    rw
      (
        le→ltb options.max_body_bytes (length (marker ++ text)) l,
        e,
        starts_with-append marker text,
        parse_multipart_form_data,
      )
      (ap (λ rest. parts_loop (suc (length (marker ++ text))) options delimiter rest [])
          (drop-append_exact (length marker) marker text refl)
        ∙ parts_loop-rendered (suc (length (marker ++ text))) options delimiter epilogue ss [] c
            (omega arith) (omega arith)
            (omega (arith, length-append marker text, length-rendered delimiter ss epilogue)))

-- The parser of a whole body returns, whatever the content type, the body and the options.
pub parse_multipart_total :
    (content_type body : Bytes) (options : MultipartParseOptions)
    → (r : MultipartParseResult) × (parse_multipart_form_data content_type body options ≡ some r)
unfolding parse_multipart_form_data
parse_multipart_total content_type body options =
    elim (Bool-cases (ltb options.max_body_bytes (length body))) [
      | inl e ↦ rw (e, parse_multipart_form_data) (_, refl)
      | inr e ↦ elim (Option-cases (multipart_boundary content_type)) [
        | inl n ↦ rw (e, n, parse_multipart_form_data) (_, refl)
        | inr (boundary, b) ↦ elim (Bool-cases (starts_with body (codes "--" ++ boundary))) [
          | inr s ↦ rw (e, b, s, parse_multipart_form_data) (_, refl)
          | inl s ↦
              rw (e, b, s, parse_multipart_form_data)
                (parts_loop_total options (crlf ++ (codes "--" ++ boundary)) (suc (length body))
                  (drop (length (codes "--" ++ boundary)) body) []
                  (omega (arith, length-drop (length (codes "--" ++ boundary)) body)))
        ]
      ]
    ]
