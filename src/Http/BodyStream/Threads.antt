-- ===== src/Http/BodyStream/Threads.antt =====
-- `on_complete` and `on_cancel` on several threads: their atomic steps, interleaved in any way. A
-- load, an exchange and a locked section are a step each; the callback runs outside the lock.
use oklib.Common.{
  length, All, length-append, ℕ, ◌+◌, ◌≤◌, ◌≡◌, refl, ap, true, false, Option, none, some, List, [],
  ◌∷◌, ◌++◌, arith,
}
use oklib.Http.BodyStream.{
  Callback, fire, drop_callbacks, BodyStream, Event, complete_event, cancel_event,
}

-- Where a thread stands in its call. A call that holds a callback has left the lock with it.
pub data Pc : Type 0 where
  complete_begins complete_checked complete_won : Pc
  complete_holds : Option Callback → Pc
  cancel_begins cancel_won cancel_checked : Pc
  cancel_holds : Option Callback → Pc
  returned : Pc

-- One atomic step of one thread: the stream and the place after it, and the callbacks that it runs.
pub data Move (s : BodyStream) : Pc → BodyStream → Pc → List Event → Type 0 where
  complete_saw_canceled : s.canceled ≡ true → Move s complete_begins s returned []
  complete_saw_open : s.canceled ≡ false → Move s complete_begins s complete_checked []
  complete_lost : s.completed ≡ true → Move s complete_checked s returned []
  complete_exchanged :
      s.completed ≡ false → Move s complete_checked (record s { completed = true }) complete_won []
  complete_took : Move s complete_won (drop_callbacks s) (complete_holds s.complete_callback) []
  complete_ran :
      {f : Option Callback} → Move s (complete_holds f) s returned (fire complete_event f)
  cancel_lost : s.canceled ≡ true → Move s cancel_begins s returned []
  cancel_exchanged :
      s.canceled ≡ false → Move s cancel_begins (record s { canceled = true }) cancel_won []
  cancel_saw_completed : s.completed ≡ true → Move s cancel_won s returned []
  cancel_saw_open : s.completed ≡ false → Move s cancel_won s cancel_checked []
  cancel_took : Move s cancel_checked (drop_callbacks s) (cancel_holds s.cancel_callback) []
  cancel_ran : {f : Option Callback} → Move s (cancel_holds f) s returned (fire cancel_event f)

pub record System : Type 0 where
  pub stream : BodyStream
  pub threads : List Pc
  pub log : List Event

pub data Step (y : System) : System → Type 0 where
  one_moves :
      (before after : List Pc) {pc pc' : Pc} {s' : BodyStream} {events : List Event}
      → y.threads ≡ before ++ pc ∷ after
      → Move y.stream pc s' pc' events
      → Step y (record { stream = s'; threads = before ++ pc' ∷ after; log = y.log ++ events })

pub data Reach (first : System) : System → Type 0 where
  at_first : Reach first first
  then_step : {y z : System} → Reach first y → Step y z → Reach first z

-- Callbacks that may still run: one if any is set, and those that threads hold.
abbrev present : Option Callback → ℕ
present none = 0
present (some f) = 1

abbrev armed : BodyStream → ℕ
armed s = elim s.complete_callback [ some f ↦ 1 | none ↦ present s.cancel_callback ]

abbrev held : Pc → ℕ
held (complete_holds f) = present f
held (cancel_holds f) = present f
held _ = 0

abbrev held_by : List Pc → ℕ
held_by [] = 0
held_by (pc ∷ pcs) = held pc + held_by pcs

held_by-append :
    (before after : List Pc) (pc : Pc)
    → held_by (before ++ pc ∷ after) ≡ held_by before + held pc + held_by after
held_by-append [] after pc = omega arith
held_by-append (x ∷ xs) after pc = omega (arith, held_by-append xs after pc)

length-fire : (event : Callback → Event) (f : Option Callback) → length (fire event f) ≡ present f
length-fire event none = refl
length-fire event (some g) = refl

-- No step makes more callbacks of those that may run and those that have run.
Move-le :
    {s s' : BodyStream} {pc pc' : Pc} {events : List Event}
    → Move s pc s' pc' events
    → armed s' + held pc' + length events ≤ armed s + held pc
Move-le (complete_saw_canceled h) = omega arith
Move-le (complete_saw_open h) = omega arith
Move-le (complete_lost h) = omega arith
Move-le (complete_exchanged h) = omega arith
Move-le complete_took = ground arith
Move-le (complete_ran {f}) = omega (arith, length-fire complete_event f)
Move-le (cancel_lost h) = omega arith
Move-le (cancel_exchanged h) = omega arith
Move-le (cancel_saw_completed h) = omega arith
Move-le (cancel_saw_open h) = omega arith
Move-le cancel_took = ground arith
Move-le (cancel_ran {f}) = omega (arith, length-fire cancel_event f)

abbrev may_run : System → ℕ
may_run y = armed y.stream + held_by y.threads + length y.log

Step-le : {y z : System} → Step y z → may_run z ≤ may_run y
Step-le {y} (one_moves before after {pc} {pc'} {s'} {events} e m) = omega (
  arith,
  ap held_by e,
  held_by-append before after pc,
  held_by-append before after pc',
  length-append y.log events,
  Move-le m,
)

Reach-le : {y z : System} → Reach y z → may_run z ≤ may_run y
Reach-le at_first = omega arith
Reach-le (then_step r s) = omega (arith, Reach-le r, Step-le s)

-- Any threads, each at the beginning of one of the two calls.
abbrev pub Begins : Pc → Type 0
Begins complete_begins = Unit
Begins cancel_begins = Unit
Begins _ = ⊥

held_by-Begins : (pcs : List Pc) → All Begins pcs → held_by pcs ≡ 0
held_by-Begins [] h = refl
held_by-Begins (complete_begins ∷ pcs) (b, h) = omega (arith, held_by-Begins pcs h)
held_by-Begins (cancel_begins ∷ pcs) (b, h) = omega (arith, held_by-Begins pcs h)
held_by-Begins (_ ∷ pcs) (b, h) = absurd b

-- However many threads call `on_complete` and `on_cancel` on a stream, and however their steps are
-- interleaved: at most one callback runs, and it runs once.
pub threads_run_once :
    (s : BodyStream) (pcs : List Pc) (z : System)
    → All Begins pcs
    → Reach (record { stream = s; threads = pcs; log = [] }) z
    → length z.log ≤ 1
threads_run_once s pcs z h r = ground (arith, Reach-le r, held_by-Begins pcs h)
