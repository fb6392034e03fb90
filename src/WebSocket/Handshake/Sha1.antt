-- ===== src/WebSocket/Handshake/Sha1.antt =====
-- `update` takes its bytes one after another, whatever the pieces that they come in.
use oklib.Common.{
  ◌==◌, if◌then◌else◌, Bool-cases, length, take, drop, length-append, length-take, length-drop,
  Bytes, ℕ, zero, suc, ◌+◌, ◌-◌, ◌%◌, ◌^◌, ◌≤◌, ◌<◌, min, ◌≡◌, refl, sym, ap, subst, ◌∙◌, inl, inr,
  [], ◌∷◌, ◌++◌, append-nil, append_assoc, arith,
}
use oklib.WebSocket.Handshake.{process_block, update_loop, update, Sha1State}

-- One byte: it goes into the block, which is processed when it is full.
abbrev pub put_byte : ℕ → Sha1State → Sha1State
put_byte x s =
    if length (s.block ++ x ∷ []) == 64
    then record s { h = process_block (s.block ++ x ∷ []) s.h; block = [] }
    else record s { block = s.block ++ x ∷ [] }

abbrev pub put_all : Bytes → Sha1State → Sha1State
put_all [] s = s
put_all (x ∷ xs) s = put_all xs (put_byte x s)

put_all-append : (xs ys : Bytes) (s : Sha1State) → put_all (xs ++ ys) s ≡ put_all ys (put_all xs s)
put_all-append [] ys s = refl
put_all-append (x ∷ xs) ys s = put_all-append xs ys (put_byte x s)

put_byte_room :
    (x : ℕ) (s : Sha1State)
    → length s.block < 63
    → put_byte x s ≡ record s { block = s.block ++ x ∷ [] }
put_byte_room x s h = ground (arith, length-append s.block (x ∷ []))

put_byte_full :
    (x : ℕ) (s : Sha1State)
    → length s.block ≡ 63
    → put_byte x s ≡ record s { h = process_block (s.block ++ x ∷ []) s.h; block = [] }
put_byte_full x s h = ground (arith, length-append s.block (x ∷ []))

-- Bytes that do not fill the block.
put_all_room :
    (n : ℕ) (xs : Bytes) (s : Sha1State)
    → n ≤ length xs
    → length s.block + n < 64
    → put_all xs s ≡ put_all (drop n xs) (record s { block = s.block ++ take n xs })
put_all_room zero xs s h k =
    ap (λ b. put_all xs (record s { block = b })) (sym (append-nil s.block))
put_all_room (suc n) [] s h k = absurd (omega arith)
put_all_room (suc n) (x ∷ xs) s h k =
    ap (put_all xs) (put_byte_room x s (omega arith))
    ∙ put_all_room n xs (record s { block = s.block ++ x ∷ [] }) (omega arith)
        (omega (arith, length-append s.block (x ∷ [])))
    ∙ ap (λ b. put_all (drop n xs) (record s { block = b }))
        (append_assoc s.block (x ∷ []) (take n xs))

-- Bytes that fill it.
put_all_full :
    (n : ℕ) (xs : Bytes) (s : Sha1State)
    → n ≤ length xs
    → 1 ≤ n
    → length s.block + n ≡ 64
    → put_all xs s
      ≡ put_all (drop n xs) (record s { h = process_block (s.block ++ take n xs) s.h; block = [] })
put_all_full zero xs s h p k = absurd (omega arith)
put_all_full (suc n) [] s h p k = absurd (omega arith)
put_all_full (suc zero) (x ∷ xs) s h p k = ap (put_all xs) (put_byte_full x s (omega arith))
put_all_full (suc (suc n)) (x ∷ xs) s h p k =
    ap (put_all xs) (put_byte_room x s (omega arith))
    ∙ put_all_full (suc n) xs (record s { block = s.block ++ x ∷ [] }) (omega arith) (omega arith)
        (omega (arith, length-append s.block (x ∷ [])))
    ∙ ap (λ b. put_all (drop (suc n) xs) (record s { h = process_block b s.h; block = [] }))
        (append_assoc s.block (x ∷ []) (take (suc n) xs))

put_byte-block : (x : ℕ) (s : Sha1State) → length s.block < 64 → length (put_byte x s).block < 64
put_byte-block x s h = ground (arith, length-append s.block (x ∷ []))

pub put_all-block :
    (xs : Bytes) (s : Sha1State) → length s.block < 64 → length (put_all xs s).block < 64
put_all-block [] s h = h
put_all-block (x ∷ xs) s h = put_all-block xs (put_byte x s) (put_byte-block x s h)

-- The chunks that the loop copies.
update_loop_lem :
    (fuel : ℕ) (xs : Bytes) (s : Sha1State)
    → length xs ≤ fuel
    → length s.block < 64
    → update_loop fuel xs s ≡ put_all xs s
unfolding update_loop
update_loop_lem fuel [] s h k = refl
update_loop_lem zero (x ∷ xs) s h k = absurd (omega arith)
update_loop_lem (suc fuel) (x ∷ xs) s h k =
    let n = min (length (x ∷ xs)) (64 - length s.block) in
    let filled = s.block ++ take n (x ∷ xs) in
    let size = length-append s.block (take n (x ∷ xs)) in
    let taken = length-take n (x ∷ xs) in
    let left = length-drop n (x ∷ xs) in
    elim (Bool-cases (length filled == 64)) [
      | inl e ↦ rw e (
          update_loop_lem fuel (drop n (x ∷ xs))
            (record s { h = process_block filled s.h; block = [] }) (omega arith) (omega arith)
          ∙ sym (put_all_full n (x ∷ xs) s (omega arith) (omega arith) (ground arith)))
      | inr e ↦ rw e (
          update_loop_lem fuel (drop n (x ∷ xs)) (record s { block = filled }) (omega arith)
            (ground arith)
          ∙ sym (put_all_room n (x ∷ xs) s (omega arith) (ground arith)))
    ]

put_byte-total :
    (x n : ℕ) (s : Sha1State)
    → put_byte x (record s { total_bytes = n }) ≡ record (put_byte x s) { total_bytes = n }
put_byte-total x n s = ground arith

put_all-total :
    (xs : Bytes) (n : ℕ) (s : Sha1State)
    → put_all xs (record s { total_bytes = n }) ≡ record (put_all xs s) { total_bytes = n }
put_all-total [] n s = refl
put_all-total (x ∷ xs) n s =
    ap (put_all xs) (put_byte-total x n s) ∙ put_all-total xs n (put_byte x s)

-- `update` as bytes one after another, and the count.
update_lem :
    (xs : Bytes) (s : Sha1State)
    → length s.block < 64
    → update xs s ≡ record (put_all xs s) { total_bytes = (s.total_bytes + length xs) % 2 ^ 64 }
unfolding update
update_lem xs s h =
    let n = (s.total_bytes + length xs) % 2 ^ 64 in
    update_loop_lem (length xs) xs (record s { total_bytes = n }) (omega arith) h
    ∙ put_all-total xs n s

-- A block that is not full, as it is between calls, and bytes in two pieces, below 2 ^ 64 bytes in
-- all: `update` on one piece after the other leaves the state that `update` on both together
-- leaves, and the block is again not full in between.
pub update-append :
    (xs ys : Bytes) (s : Sha1State)
    → length s.block < 64
    → s.total_bytes + length xs + length ys < 2 ^ 64
    → (update (xs ++ ys) s ≡ update ys (update xs s)) × (length (update xs s).block < 64)
update-append xs ys s h k =
    let first = update_lem xs s h in
    let n = (s.total_bytes + length xs) % 2 ^ 64 in
    let n_all = (n + length ys) % 2 ^ 64 in
    let room = put_all-block xs s h in
    let total : (s.total_bytes + length (xs ++ ys)) % 2 ^ 64 ≡ n_all =
      omega (arith, length-append xs ys) in
    (
      update_lem (xs ++ ys) s h
          ∙ ap (λ m. record (put_all (xs ++ ys) s) { total_bytes = m }) total
          ∙ ap (λ (t : Sha1State). record t { total_bytes = n_all }) (put_all-append xs ys s)
          ∙ sym (
              ap (λ (t : Sha1State). record t { total_bytes = n_all })
                (put_all-total ys n (put_all xs s)))
          ∙ sym (
              ap (update ys) first
              ∙ update_lem ys (record (put_all xs s) { total_bytes = n }) room),
      subst (λ (t : Sha1State). length t.block < 64) (sym first) room,
    )
