-- ===== src/Http/Pipeline.antt =====
-- The pipeline of `HttpResponseWriter` in src/http/http_response_writer.cpp: responses are handed
-- in in any order, and leave in the order of their requests. A call under the mutex is one step.
-- Fewer than 2 ^ 64 responses are sent on a connection.
pub mod Pending
pub mod Order
pub mod Calls
mod Tests
use oklib.Common.{
  ◌==◌, if◌then◌else◌, length, Bytes, ℕ, zero, suc, ◌+◌, Bool, true, false, not, ◌||◌, Option, none,
  some, List, [], ◌∷◌, ◌++◌,
}

pub record PendingResponse : Type 0 where
  pub chunks : List Bytes
  pub close_connection : Bool
  pub finished : Bool

-- The `std::map`; the order of its entries is not looked at.
abbrev pub PendingMap : Type 0
PendingMap = List (ℕ × PendingResponse)

pub record PipelineState : Type 0 where
  pub pending : PendingMap
  pub next_to_send : ℕ
  pub closed : Bool

unfoldable pub make_state : PipelineState
make_state = record { pending = []; next_to_send = 0; closed = false }

unfoldable pub find_pending : ℕ → PendingMap → Option PendingResponse
find_pending i [] = none
find_pending i ((k, r) ∷ rest) = if k == i then some r else find_pending i rest

unfoldable pub put_pending : ℕ → PendingResponse → PendingMap → PendingMap
put_pending i new [] = (i, new) ∷ []
put_pending i new ((k, r) ∷ rest) =
    if k == i then (k, new) ∷ rest else (k, r) ∷ put_pending i new rest

unfoldable pub erase_pending : ℕ → PendingMap → PendingMap
erase_pending i [] = []
erase_pending i ((k, r) ∷ rest) =
    let others = erase_pending i rest in if k == i then others else (k, r) ∷ others

-- `pending[sequence_]`, which makes an entry where there is none.
abbrev pub or_new : Option PendingResponse → PendingResponse
or_new none = record { chunks = []; close_connection = false; finished = false }
or_new (some r) = r

abbrev pub pending_or_new : ℕ → PendingMap → PendingResponse
pending_or_new i pending = or_new (find_pending i pending)

-- What is handed to `enqueue`.
pub record Enqueued : Type 0 where
  pub sequence : ℕ
  pub bytes : Bytes
  pub finished : Bool
  pub close_connection : Bool

-- `enqueue`, and whether it queues `flush_ready_responses` in the loop, which is also its result;
-- `alive` says that the connection can still be locked.
unfoldable pub enqueue : Bool → Enqueued → PipelineState → Bool × PipelineState
enqueue alive e s =
    let r = pending_or_new e.sequence s.pending in
    if s.closed then (false, s) else (
      alive,
      record s {
        pending =
            put_pending e.sequence
              (record {
                chunks = r.chunks ++ e.bytes ∷ [];
                close_connection = r.close_connection || e.close_connection;
                finished = r.finished || e.finished;
              })
              s.pending;
      },
    )

-- What a flush does: the bytes given to `send` call by call, and whether it calls `shutdown`.
pub record Flushed : Type 0 where
  pub sends : List Bytes
  pub shuts_down : Bool
  pub state : PipelineState

-- The loop. Every round but the last erases an entry.
unfoldable pub flush_loop : ℕ → PipelineState → Flushed
flush_loop zero s = record { sends = []; shuts_down = false; state = s }
flush_loop (suc fuel) s = elim (find_pending s.next_to_send s.pending) [
  | none ↦ record { sends = []; shuts_down = false; state = s }
  | some r ↦
      let erased : PipelineState = record s {
        pending = erase_pending s.next_to_send s.pending;
        next_to_send = s.next_to_send + 1;
      } in
      let later = flush_loop fuel erased in
      if not r.finished
      then record {
        sends = r.chunks;
        shuts_down = false;
        state = record s {
          pending = put_pending s.next_to_send (record r { chunks = [] }) s.pending;
        };
      }
      else if r.close_connection
      then record { sends = r.chunks; shuts_down = true; state = record erased { closed = true } }
      else record later { sends = r.chunks ++ later.sends }
]

unfoldable pub flush_ready_responses : Bool → PipelineState → Flushed
flush_ready_responses alive s =
    if not alive || s.closed
    then record { sends = []; shuts_down = false; state = s }
    else flush_loop (suc (length s.pending)) s
