-- ===== src/Http/Pipeline/Pending.antt =====
-- The map of pending responses.
use oklib.Common.{
  ◌==◌, if◌then◌else◌, Bool-cases, length, ℕ, ◌≤◌, ◌<◌, ◌≡◌, refl, inl, inr, none, some, [], ◌∷◌,
  arith,
}
use oklib.Http.Pipeline.{PendingMap, find_pending, put_pending, erase_pending, PendingResponse}

pub find-put :
    (i : ℕ) (r : PendingResponse) (m : PendingMap) (j : ℕ)
    → find_pending j (put_pending i r m) ≡ (if i == j then some r else find_pending j m)
unfolding find_pending put_pending
find-put i r [] j = refl
find-put i r ((k, q) ∷ m) j = ground (arith, find-put i r m j)

pub find-erase :
    (i : ℕ) (m : PendingMap) (j : ℕ)
    → find_pending j (erase_pending i m) ≡ (if i == j then none else find_pending j m)
unfolding find_pending erase_pending
find-erase i [] j = ground arith
find-erase i ((k, q) ∷ m) j = ground (arith, find-erase i m j)

length-erase_le : (i : ℕ) (m : PendingMap) → length (erase_pending i m) ≤ length m
unfolding erase_pending
length-erase_le i [] = omega arith
length-erase_le i ((k, q) ∷ m) = ground (arith, length-erase_le i m)

pub length-erase :
    (i : ℕ) (m : PendingMap) {r : PendingResponse}
    → find_pending i m ≡ some r
    → length (erase_pending i m) < length m
unfolding find_pending erase_pending
length-erase i [] h = absurd cc
length-erase i ((k, q) ∷ m) {r} h = elim (Bool-cases (k == i)) [
  | inl e ↦ rw e (omega (arith, length-erase_le i m))
  | inr e ↦ rw e (omega (arith, length-erase i m {r = r} (ground (arith, e))))
]
