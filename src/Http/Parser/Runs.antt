-- ===== src/Http/Parser/Runs.antt =====
-- Runs of the parser's loops: several rounds that each go on.
use oklib.Common.{ℕ, zero, suc, ◌<◌, ◌≡◌, refl, subst, ◌∙◌, some, arith}
use oklib.Buffer.{readable_bytes, Buffer}
use oklib.Buffer.Invariant.{IsValid}
use oklib.Http.Parser.{HttpParser, HttpParseStatus}
use oklib.Http.Parser.Loop.{loop, Round, returns, continues}
use oklib.Http.Parser.Progress.{Advances}

-- The rounds lead to the parser `r` and the buffer `d`.
pub data Runs (round : HttpParser → Buffer → Round) (r : HttpParser) (d : Buffer)
    : HttpParser → Buffer → Type 0 where
  arrived : Runs round r d r d
  then_runs :
      {p q : HttpParser} {b c : Buffer}
      → round p b ≡ continues q c
      → Runs round r d q c
      → Runs round r d p b

pub Runs-trans :
    {round : HttpParser → Buffer → Round} {r q : HttpParser} {d c : Buffer} {p : HttpParser}
    {b : Buffer}
    → Runs round q c p b
    → Runs round r d q c
    → Runs round r d p b
Runs-trans arrived more = more
Runs-trans (then_runs e rest) more = then_runs e (Runs-trans rest more)

abbrev pub Advancing : (HttpParser → Buffer → Round) → Type 0
Advancing round = (p : HttpParser) (b : Buffer) → IsValid b → Advances b (round p b)

one_round :
    (round : HttpParser → Buffer → Round) (fuel : ℕ) (p q : HttpParser) (b c : Buffer)
    → Advances b (round p b)
    → round p b ≡ continues q c
    → readable_bytes b < suc fuel
    → IsValid c × (readable_bytes c < fuel) × (loop round (suc fuel) p b ≡ loop round fuel q c)
unfolding loop
one_round round fuel p q b c a e h =
    let adv : Advances b (continues q c) = subst (Advances b) e a in
    (adv.0, omega (arith, adv.1), ground (arith, e))

module _ (round : HttpParser → Buffer → Round) (adv : Advancing round) {r : HttpParser}
    {d : Buffer} where
  -- A loop with enough fuel goes where its rounds lead, and has enough fuel there.
  pub loop-Runs :
      {p : HttpParser} {b : Buffer}
      → Runs round r d p b
      → (fuel : ℕ) → IsValid b
      → readable_bytes b < fuel
      → IsValid d
        × ((left : ℕ) × (readable_bytes d < left) × (loop round fuel p b ≡ loop round left r d))
  loop-Runs arrived fuel v h = (v, (fuel, h, refl))
  loop-Runs (then_runs e rest) zero v h = absurd (omega arith)
  loop-Runs {p} {b} (then_runs {q = q} {c = c} e rest) (suc fuel) v h =
      let (w, le, eq) = one_round round fuel p q b c (adv p b v) e h in
      let (u, (left, lt, eq2)) = loop-Runs rest fuel w le in (u, (left, lt, eq ∙ eq2))

  loop_last :
      (s : HttpParseStatus) (r' : HttpParser) (d' : Buffer) (left : ℕ)
      → round r d ≡ returns s r' d'
      → readable_bytes d < left
      → loop round left r d ≡ some (record { status = s; parser = r'; buffer = d' })
  unfolding loop
  loop_last s r' d' zero e lt = absurd (omega arith)
  loop_last s r' d' (suc left) e lt = ground (arith, e)

  -- Where the rounds lead to one that returns, the loop returns.
  pub loop-returns :
      {p : HttpParser} {b : Buffer} (s : HttpParseStatus) (r' : HttpParser) (d' : Buffer)
      → Runs round r d p b
      → round r d ≡ returns s r' d'
      → IsValid b
      → loop round (suc (readable_bytes b)) p b
        ≡ some (record { status = s; parser = r'; buffer = d' })
  loop-returns {b = b} s r' d' runs e v =
      let (w, (left, lt, eq)) = loop-Runs runs (suc (readable_bytes b)) v (omega arith) in
      eq ∙ loop_last s r' d' left e lt
