-- ===== src/Worker/Capacity.antt =====
-- The backpressure of JobRunner.start (src/worker/JobRunner.ts).
use saral.Base.{
  ℕ, ◌+◌, ◌≤◌, ◌≡◌, refl, ap, ◌∙◌, ◌↔◌, true, false, Option, none, some, List, ◌∷◌, arith, length,
  length-append,
}
use saral.Queue.Port.{QueueMessage}
use saral.Worker.Polling.{
  Runner, begin, Step, ask, answer, receive_fails, finish, stop, Reach, here, next,
}

abbrev pub asked_for : Option ℕ → ℕ
asked_for none = 0
asked_for (some n) = n

-- The running tasks and those that an open request may still bring fit the capacity; a batch is at
-- most ten, and the handlers are told to abort exactly when the loop has been stopped.
pub record IsWithin (r : Runner) : Type 0 where
  pub capacity : length r.active + asked_for r.asked ≤ r.max_concurrent
  pub batch : asked_for r.asked ≤ 10
  pub signal : (r.aborted ≡ false → r.running ≡ true) × (r.running ≡ true → r.aborted ≡ false)

Step-IsWithin : {r s : Runner} → Step r s → IsWithin r → IsWithin s
Step-IsWithin (ask r running idle free) w = ground arith
Step-IsWithin (answer r limit messages asked few) w =
    ground (arith, length-append r.active messages)
Step-IsWithin (receive_fails r limit asked) w = ground arith
Step-IsWithin (finish r before m after active) w = ground (
  arith,
  ap (λ (l : List QueueMessage). length l) active,
  length-append before (m ∷ after),
  length-append before after,
)
Step-IsWithin (stop r running) w = ground arith

Reach-IsWithin : {r s : Runner} → Reach r s → IsWithin r → IsWithin s
Reach-IsWithin here w = w
Reach-IsWithin (next p st) w = Step-IsWithin st (Reach-IsWithin p w)

Step-max_concurrent : {r s : Runner} → Step r s → s.max_concurrent ≡ r.max_concurrent
Step-max_concurrent (ask r running idle free) = refl
Step-max_concurrent (answer r limit messages asked few) = refl
Step-max_concurrent (receive_fails r limit asked) = refl
Step-max_concurrent (finish r before m after active) = refl
Step-max_concurrent (stop r running) = refl

Reach-max_concurrent : {r s : Runner} → Reach r s → s.max_concurrent ≡ r.max_concurrent
Reach-max_concurrent here = refl
Reach-max_concurrent (next p st) = Step-max_concurrent st ∙ Reach-max_concurrent p

-- However the loop, its tasks and a stop interleave from the start, the worker never runs more
-- tasks than `max_concurrent`, counting those that an open `receive` may still bring, never asks
-- for more than ten messages, and has aborted the signal exactly when it no longer runs.
pub Reach-capacity :
    (max_concurrent : ℕ) (r : Runner)
    → Reach (begin max_concurrent) r
    → (length r.active + asked_for r.asked ≤ max_concurrent)
      × (asked_for r.asked ≤ 10)
      × ((r.aborted ≡ false) ↔ (r.running ≡ true))
Reach-capacity max_concurrent r p =
    let w = Reach-IsWithin p (ground arith) in
    (omega (arith, w, Reach-max_concurrent p), w.batch, w.signal)
