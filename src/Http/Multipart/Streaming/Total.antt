-- ===== src/Http/Multipart/Streaming/Total.antt =====
-- The loop of the streaming parser ends.
use oklib.Common.{
  Bool-cases, Option-cases, length, take, drop, length-drop, Bytes, codes, ℕ, zero, suc, ◌+◌, ◌-◌,
  ◌≤◌, ◌<◌, min, ◌≡◌, refl, ap, ◌∙◌, inl, inr, true, false, Option, none, some, ◌++◌, arith,
}
use oklib.Http.Multipart.Values.{find_text, crlf, parse_part_headers}
use oklib.Http.Multipart.{double_crlf}
use oklib.Http.Multipart.Search.{length-starts_with, find_text_within}
use oklib.Http.Multipart.Streaming.{
  complete_once, emit_data, end_body, process_boundary_suffix, process_first_boundary, part_in,
  begin_streaming_part, process_headers, emit_front, end_part, process_body, process_in, leaves,
  behind_events, process_loop, process, StreamingMultipartPart, StreamingParser, Processing,
  StreamingState, first_boundary, in_headers, in_body, boundary_suffix, done, in_error,
}

-- A round that goes on leaves less in the buffer.
abbrev pub Less : StreamingParser → Processing → Type 0
Less p r =
    r.result ≡ true
    → (length r.parser.buffer < length p.buffer) × (r.parser.delimiter ≡ p.delimiter)

end_body-buffer :
    (rest : Bytes) (p : StreamingParser)
    → (length (end_body rest p).parser.buffer ≤ length rest)
      × ((end_body rest p).parser.delimiter ≡ p.delimiter)
unfolding end_body complete_once
end_body-buffer rest p = ground (arith, length-drop 2 rest)

suffix-Less : (p : StreamingParser) → Less p (process_boundary_suffix p)
unfolding process_boundary_suffix
suffix-Less p h = ground (
  arith,
  end_body-buffer (drop 2 p.buffer) p,
  length-drop 2 p.buffer,
  length-starts_with p.buffer (codes "--"),
  length-starts_with p.buffer crlf,
)

first-Less : (p : StreamingParser) → Less p (process_first_boundary p)
unfolding process_first_boundary
first-Less p h = ground (
  arith,
  suffix-Less (record p { buffer = drop (length p.marker) p.buffer }),
  length-drop (length p.marker) p.buffer,
)

begin-Less :
    (i : ℕ) (part : Option StreamingMultipartPart) (p : StreamingParser)
    → i + 4 ≤ length p.buffer
    → Less p (begin_streaming_part i part p)
unfolding begin_streaming_part
begin-Less i none p h e = absurd cc
begin-Less i (some part) p h e = (omega (arith, length-drop (i + 4) p.buffer), refl)

headers-Less : (p : StreamingParser) → Less p (process_headers p)
unfolding process_headers
headers-Less p = elim (Option-cases (find_text double_crlf p.buffer)) [
  | inl n ↦ rw (n, process_headers) (λ h. absurd (ground arith))
  | inr (i, f) ↦
      rw (f, process_headers)
        (λ h. ground (
          arith,
          begin-Less i (part_in (parse_part_headers (take i p.buffer))) p
              (find_text_within double_crlf p.buffer f),
        ))
]

emit_data-buffer :
    (chunk : Bytes) (p : StreamingParser)
    → ((emit_data chunk p).1.buffer ≡ p.buffer) × ((emit_data chunk p).1.delimiter ≡ p.delimiter)
unfolding emit_data
emit_data-buffer chunk p = ground arith

body-Less : (p : StreamingParser) → 1 ≤ length p.delimiter → Less p (process_body p)
unfolding process_body emit_front end_part
body-Less p d = elim (Option-cases (find_text p.delimiter p.buffer)) [
  | inl n ↦ rw (n, process_body) (λ h. absurd (ground arith))
  | inr (i, f) ↦
      let (b, e) = emit_data-buffer (take i p.buffer) p in
      rw (f, process_body)
        (λ h. (
          omega (
            arith,
            find_text_within p.delimiter p.buffer f,
            length-drop (i + length (emit_data (take i p.buffer) p).1.delimiter)
                (emit_data (take i p.buffer) p).1.buffer,
            ap length b,
            ap length e,
          ),
          e,
        ))
]

process_in-Less :
    (s : StreamingState) (p : StreamingParser) → 1 ≤ length p.delimiter → Less p (process_in s p)
unfolding process_in
process_in-Less first_boundary p d = first-Less p
process_in-Less in_headers p d = headers-Less p
process_in-Less in_body p d = body-Less p d
process_in-Less boundary_suffix p d = suffix-Less p
process_in-Less done p d = λ h. absurd cc
process_in-Less in_error p d = λ h. absurd cc

-- The loop on its two branches.
pub loop_goes_on :
    (fuel : ℕ) (p : StreamingParser)
    → (process_in p.state p).result ≡ true
    → process_loop (suc fuel) p
      ≡ behind_events
          (process_in p.state p).events
          (process_loop fuel (process_in p.state p).parser)
unfolding process_loop
loop_goes_on fuel p h = ground (arith, h)

pub loop_leaves :
    (fuel : ℕ) (p : StreamingParser)
    → (process_in p.state p).result ≡ false
    → process_loop (suc fuel) p
      ≡ some (record (leaves (process_in p.state p).parser) {
        events = (process_in p.state p).events ++ (leaves (process_in p.state p).parser).events;
      })
unfolding process_loop
loop_leaves fuel p h = ground (arith, h)

-- No call changes the delimiter.
suffix-delimiter :
    (p : StreamingParser) → (process_boundary_suffix p).parser.delimiter ≡ p.delimiter
unfolding process_boundary_suffix
suffix-delimiter p = ground (arith, end_body-buffer (drop 2 p.buffer) p)

first-delimiter : (p : StreamingParser) → (process_first_boundary p).parser.delimiter ≡ p.delimiter
unfolding process_first_boundary
first-delimiter p =
    ground (arith, suffix-delimiter (record p { buffer = drop (length p.marker) p.buffer }))

begin-delimiter :
    (i : ℕ) (part : Option StreamingMultipartPart) (p : StreamingParser)
    → (begin_streaming_part i part p).parser.delimiter ≡ p.delimiter
unfolding begin_streaming_part
begin-delimiter i none p = refl
begin-delimiter i (some part) p = refl

headers-delimiter : (p : StreamingParser) → (process_headers p).parser.delimiter ≡ p.delimiter
unfolding process_headers
headers-delimiter p = elim (Option-cases (find_text double_crlf p.buffer)) [
  | inl n ↦ rw (n, process_headers) (ground arith)
  | inr (i, f) ↦
      rw (f, process_headers)
        (ground (arith, begin-delimiter i (part_in (parse_part_headers (take i p.buffer))) p))
]

body-delimiter : (p : StreamingParser) → (process_body p).parser.delimiter ≡ p.delimiter
unfolding process_body emit_front end_part
body-delimiter p = elim (Option-cases (find_text p.delimiter p.buffer)) [
  | inl n ↦
      let keep = min (length p.buffer) (length p.delimiter - 1) in
      rw (n, process_body)
        (ground (arith, emit_data-buffer (take (length p.buffer - keep) p.buffer) p))
  | inr (i, f) ↦ rw (f, process_body) (emit_data-buffer (take i p.buffer) p).1
]

process_in-delimiter :
    (s : StreamingState) (p : StreamingParser) → (process_in s p).parser.delimiter ≡ p.delimiter
unfolding process_in
process_in-delimiter first_boundary p = first-delimiter p
process_in-delimiter in_headers p = headers-delimiter p
process_in-delimiter in_body p = body-delimiter p
process_in-delimiter boundary_suffix p = suffix-delimiter p
process_in-delimiter done p = refl
process_in-delimiter in_error p = refl

leaves-delimiter : (p : StreamingParser) → (leaves p).parser.delimiter ≡ p.delimiter
unfolding leaves complete_once
leaves-delimiter p = ground arith

process_loop_total :
    (fuel : ℕ) (p : StreamingParser)
    → 1 ≤ length p.delimiter
    → length p.buffer < fuel
    → (r : Processing) × (process_loop fuel p ≡ some r) × (r.parser.delimiter ≡ p.delimiter)
process_loop_total zero p d h = absurd (omega arith)
process_loop_total (suc fuel) p d h =
    let q = (process_in p.state p).parser in
    let same = process_in-delimiter p.state p in
    elim (Bool-cases (process_in p.state p).result) [
      | inl e ↦
          let (lt, _) = process_in-Less p.state p d e in
          let (r, found, kept) =
            process_loop_total fuel q (omega (arith, ap length same)) (omega arith) in
          (
            _,
            loop_goes_on fuel p e ∙ ap (behind_events (process_in p.state p).events) found,
            kept ∙ same,
          )
      | inr e ↦ (_, loop_leaves fuel p e, leaves-delimiter q ∙ same)
    ]

pub process_total :
    (p : StreamingParser)
    → 1 ≤ length p.delimiter
    → (r : Processing) × (process p ≡ some r) × (r.parser.delimiter ≡ p.delimiter)
unfolding process
process_total p d = process_loop_total (suc (length p.buffer)) p d (omega arith)
