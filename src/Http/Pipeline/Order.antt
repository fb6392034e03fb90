-- ===== src/Http/Pipeline/Order.antt =====
-- Responses leave in the order of their requests.
pub mod Flush
pub mod Steps
use oklib.Common.{
  ◌==◌, if◌then◌else◌, ==_iff, Bool-cases, Bytes, ℕ, ◌+◌, ◌≤◌, ◌<◌, ◌≡◌, sym, ap, subst, ◌∙◌, ◌⊎◌,
  inl, inr, Bool, true, false, ◌&&◌, ◌||◌, List, [], ◌∷◌, ◌++◌, append_assoc, arith,
}
use oklib.Http.Pipeline.{pending_or_new, PipelineState, Enqueued}

-- What has been accepted, the newest first.
abbrev pub History : Type 0
History = List Enqueued

-- The bytes handed in for a response, in their order.
abbrev pub bytes_of : ℕ → History → List Bytes
bytes_of i [] = []
bytes_of i (e ∷ h) = if e.sequence == i then bytes_of i h ++ e.bytes ∷ [] else bytes_of i h

-- The response has been finished, and one of its parts asked for the connection to be closed.
abbrev pub ends : ℕ → History → Bool
ends i [] = false
ends i (e ∷ h) = ends i h || (e.sequence == i && e.finished)

abbrev pub closes : ℕ → History → Bool
closes i [] = false
closes i (e ∷ h) = closes i h || (e.sequence == i && e.close_connection)

-- Nothing is handed in for a response that has been finished.
abbrev pub Orderly : History → Type 0
Orderly [] = Unit
Orderly (e ∷ h) = (ends e.sequence h ≡ false) × Orderly h

-- All that is to be sent from response `i` on: the responses one after another, up to the first
-- that is not finished, or that closes the connection.
pub data InOrder (h : History) : ℕ → List Bytes → Type 0 where
  waits : {i : ℕ} → ends i h ≡ false → InOrder h i (bytes_of i h)
  stops : {i : ℕ} → ends i h ≡ true → closes i h ≡ true → InOrder h i (bytes_of i h)
  goes_on :
      {i : ℕ} {later : List Bytes}
      → ends i h ≡ true
      → closes i h ≡ false
      → InOrder h (i + 1) later
      → InOrder h i (bytes_of i h ++ later)

-- The responses below `n` have been sent whole.
pub data Passed (h : History) : ℕ → List Bytes → Type 0 where
  none_passed : Passed h 0 []
  one_passed :
      {n : ℕ} {w : List Bytes}
      → Passed h n w
      → ends n h ≡ true
      → closes n h ≡ false
      → Passed h (n + 1) (w ++ bytes_of n h)

pub Passed-InOrder :
    {h : History} {n : ℕ} {w : List Bytes}
    → Passed h n w
    → (later : List Bytes) → InOrder h n later
    → InOrder h 0 (w ++ later)
Passed-InOrder none_passed later o = o
Passed-InOrder {h = h} (one_passed {n = n} {w = w} p e c) later o =
    subst (InOrder h 0) (sym (append_assoc w (bytes_of n h) later))
      (Passed-InOrder p (bytes_of n h ++ later) (goes_on e c o))

-- What stands in the map and what has been sent, against the history.
pub record Matches (s : PipelineState) (sent : List Bytes) (h : History) : Type 0 where
  pub unclosed : s.closed ≡ false
  pub whole : List Bytes
  pub part : List Bytes
  pub passed : Passed h s.next_to_send whole
  pub split : sent ≡ whole ++ part
  pub front : part ++ (pending_or_new s.next_to_send s.pending).chunks ≡ bytes_of s.next_to_send h
  pub later : (i : ℕ) → s.next_to_send < i → (pending_or_new i s.pending).chunks ≡ bytes_of i h
  pub finished : (i : ℕ) → s.next_to_send ≤ i → (pending_or_new i s.pending).finished ≡ ends i h
  pub closing :
      (i : ℕ) → s.next_to_send ≤ i → (pending_or_new i s.pending).close_connection ≡ closes i h

-- The responses below `n` have been finished.
pub Passed-ends :
    {h : History} {n : ℕ} {w : List Bytes} → Passed h n w → (i : ℕ) → i < n → ends i h ≡ true
Passed-ends none_passed i le = absurd (omega arith)
Passed-ends {h = h} (one_passed {n = n} p e c) i le = elim (Bool-cases (i == n)) [
  | inl same ↦ subst (λ k. ends k h ≡ true) (sym ((==_iff i n).0 same)) e
  | inr other ↦ Passed-ends p i (ground arith)
]

-- What is handed in for another response leaves this one as it is.
bytes_of-other :
    (i : ℕ) (e : Enqueued) (h : History)
    → (e.sequence == i) ≡ false
    → (bytes_of i (e ∷ h) ≡ bytes_of i h)
      × (ends i (e ∷ h) ≡ ends i h)
      × (closes i (e ∷ h) ≡ closes i h)
bytes_of-other i e h o = ground arith

-- The responses that have been sent stay sent when more is handed in for a later one.
pub Passed-more :
    {h : History} {n : ℕ} {w : List Bytes}
    → Passed h n w
    → (e : Enqueued) → ends e.sequence h ≡ false
    → Passed (e ∷ h) n w
Passed-more none_passed e o = none_passed
Passed-more {h = h} (one_passed {n = n} {w = w} p ended c) e o =
    let other = bytes_of-other n e h (differ e.sequence (Bool-cases (e.sequence == n)) o) in
    subst (λ b. Passed (e ∷ h) (n + 1) (w ++ b)) other.0
      (one_passed (Passed-more p e o) (other.1 ∙ ended) (other.2 ∙ c))
  where
    differ : (k : ℕ) → ((k == n) ≡ true) ⊎ ((k == n) ≡ false) → ends k h ≡ false → (k == n) ≡ false
    differ k (inr o) h' = o
    differ k (inl s) h' = absurd (ground (arith, ap (λ x. ends x h) ((==_iff k n).0 s), ended))
