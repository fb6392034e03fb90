-- ===== src/Http/Parser/Status/Returned.antt =====
-- The status that `parse_request` and `parse_response` return, and the parser behind it.
use oklib.Common.{ℕ, zero, suc, ◌≡◌, refl, sym, subst, ◌⊎◌, inl, inr, false, Option, none, some}
use oklib.Buffer.{readable_bytes, Buffer}
use oklib.Buffer.Invariant.{IsValid}
use oklib.Http.Parser.{
  HttpParser, State, start_line, headers, fixed_body, chunk_size, chunk_data, trailers, completed,
  failed,
}
use oklib.Http.Parser.Body.{parse_trailers_fuel, parse_trailers, Call}
use oklib.Http.Parser.Loop.{
  ends, round_in, loop, parse, parse_request, parse_response, Parsed, Round, returns, continues,
  diverges,
}
use oklib.Http.Parser.Progress.{parse_request_total}
use oklib.Http.Parser.Chunks.{rounds}
use oklib.Http.Parser.Status.{
  Healthy, Broken, IsStatusOf, Tells, start_line-Tells, headers-Tells, chunk_size-Tells,
  chunk_data-Tells, fixed_body-Tells, TrailersTell, trailers_fuel-Tells,
}

trailers-Tells :
    (t : ℕ) (p : HttpParser) (b : Buffer)
    → Healthy p
    → p.state ≡ trailers
    → Tells (round_in trailers t p b)
unfolding round_in parse_trailers
trailers-Tells t p b h s =
    of_call (parse_trailers_fuel (suc (readable_bytes b)) p b)
      (trailers_fuel-Tells (suc (readable_bytes b)) p b h s)
  where
    of_call :
        (r : Option Call) → TrailersTell r → Tells (elim r [ none ↦ diverges | some c ↦ ends c ])
    of_call none h = tt
    of_call (some c) h = h

round-Tells :
    (s : State) (t : ℕ) (p : HttpParser) (b : Buffer)
    → Healthy p
    → p.state ≡ s
    → Tells (round_in s t p b)
unfolding round_in
round-Tells start_line t p b h s = start_line-Tells t p b h s
round-Tells headers t p b h s = headers-Tells p b h s
round-Tells fixed_body t p b h s = fixed_body-Tells p b h s
round-Tells chunk_size t p b h s = chunk_size-Tells p b h s
round-Tells chunk_data t p b h s = chunk_data-Tells p b h s
round-Tells trailers t p b h s = trailers-Tells t p b h s
round-Tells completed t p b h s = (h, s)
round-Tells failed t p b h s = absurd (h.1 s)

-- A parser of whole messages, with or without an error.
abbrev pub Consistent : HttpParser → Type 0
Consistent p = Healthy p ⊎ Broken p

rounds-Tells : (t : ℕ) (p : HttpParser) (b : Buffer) → Consistent p → Tells (rounds t p b)
unfolding round_in
rounds-Tells t p b (inl h) = round-Tells p.state t p b h refl
rounds-Tells t p b (inr h) = subst (λ s. Tells (round_in s t p b)) (sym h.1) h

abbrev LoopTells : Option Parsed → Type 0
LoopTells none = Unit
LoopTells (some r) = IsStatusOf r.status r.parser

loop_round-Tells :
    (t fuel : ℕ) (p : HttpParser) (b : Buffer) (r : Round)
    → ((q : HttpParser) (c : Buffer) → Consistent q → LoopTells (loop (rounds t) fuel q c))
    → Tells r
    → LoopTells (elim r [
      | returns s q c ↦ some (record { status = s; parser = q; buffer = c })
      | continues q c ↦ loop (rounds t) fuel q c
      | diverges ↦ none
    ])
loop_round-Tells t fuel p b (returns s q c) rest h = h
loop_round-Tells t fuel p b (continues q c) rest h = rest q c (inl h)
loop_round-Tells t fuel p b diverges rest h = tt

loop-Tells :
    (t fuel : ℕ) (p : HttpParser) (b : Buffer) → Consistent p → LoopTells (loop (rounds t) fuel p b)
unfolding loop
loop-Tells t zero p b h = tt
loop-Tells t (suc fuel) p b h =
    loop_round-Tells t fuel p b (rounds t p b) (loop-Tells t fuel) (rounds-Tells t p b h)

-- What a result of the loop says.
told : (o : Option Parsed) (r : Parsed) → o ≡ some r → LoopTells o → IsStatusOf r.status r.parser
told o r e h = subst LoopTells e h

-- On a valid buffer, and on a parser that has met no error or is in the state of one, both
-- entry points for whole messages return, and their status says what the parser has come to:
-- `complete`, that the message is complete and no error has been met; `incomplete`, that it is
-- not complete and no error has been met; `error`, that an error is recorded and the parser is
-- in the state of one.
pub parse_request-IsStatusOf :
    (t : ℕ) (p : HttpParser) (b : Buffer)
    → IsValid b
    → Consistent (record p { head_only = false })
    → ((r : Parsed) × (parse_request t p b ≡ some r) × IsStatusOf r.status r.parser)
      × ((r : Parsed) × (parse_response p b ≡ some r) × IsStatusOf r.status r.parser)
unfolding parse_request parse_response parse
parse_request-IsStatusOf t p b v h =
    let (q, qe, qs) = (parse_request_total t p b v).0 in
    let (r, re, rs) = (parse_request_total t p b v).2 in
    (
      (q, qe, told _ q qe (loop-Tells t (suc (readable_bytes b)) _ b h)),
      (r, re, told _ r re (loop-Tells 0 (suc (readable_bytes b)) _ b h)),
    )
