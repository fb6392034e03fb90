-- ===== src/Http/Context/Chunked/Whole.antt =====
-- A chunked body over any number of calls, one for each piece of it that arrives.
use oklib.Common.{
  length, Bytes, ◌≤◌, ◌≡◌, ◌⊎◌, true, false, Option, none, some, List, [], ◌∷◌, ◌++◌,
}
use oklib.Buffer.{append, Buffer}
use oklib.Http.Parser.{HttpParseStatus, incomplete, complete}
use oklib.Http.BodyStream.{BodyStream, Event, Call}
use oklib.Http.Parser.Chunks.RoundTrip.{joined}
use oklib.Http.Context.{HttpContext}
use oklib.Http.Context.Streaming.{behind, process_streaming_body, Processed}
use oklib.Http.Context.Delivery.{data_of}

-- The pieces arrive one by one, and each is processed with what is left of those before it, until
-- one call completes the body or fails.
unfoldable pub feed : (Event → List Call) → List Bytes → HttpContext → Buffer → Option Processed
feed react [] c b = some (record { status = incomplete; events = []; context = c; buffer = b })
feed react (piece ∷ pieces) c b = elim (process_streaming_body react c (append piece b)) [
  | none ↦ none
  | some r ↦
      let more = feed react pieces r.context r.buffer in
      elim r.status [ incomplete ↦ behind r.events more | _ ↦ some r ]
]

-- The whole body has been delivered, or the reading is paused.
pub data Fed : HttpParseStatus → Bytes → HttpContext → Type 0 where
  fed_whole :
      {c : HttpContext}
      → c.streaming_body_active ≡ false
      → c.body_stream.completed ≡ true
      → Fed complete [] c
  fed_until_paused :
      {c : HttpContext} {left : Bytes} → c.body_stream.reading_paused ≡ true → Fed incomplete left c

-- What `feed` returns.
pub FedOf : Bytes → Option Processed → Type 0
FedOf stuff o =
    (r : Processed) × (o ≡ some r)
    × (left : Bytes) × (stuff ≡ data_of r.events ++ left)
    × Fed r.status left r.context

-- Where the reading is paused for good, or everything has come.
abbrev pub Settled : List Bytes → HttpContext → Type 0
Settled pieces c = (c.body_stream.reading_paused ≡ true) ⊎ (1 ≤ length (joined pieces))
