-- ===== src/Queue/Ceiling.antt =====
-- The redrive ceiling of InMemoryQueue (src/adapters/local/InMemoryQueue.ts): how often a message
-- is delivered, whatever the consumers do.
use saral.Base.{
  ℕ, ◌+◌, ◌*◌, ◌≤◌, ◌<◌, ◌≡◌, refl, List, [], ◌∷◌, arith, ltb, ◌==◌, if◌then◌else◌, All,
  tally-append, sum_of, sum_of-append, Bool-cases, inl, inr,
}
use saral.Jobs.{Job}
use saral.Queue.Port.{QueueMessage}
use saral.Queue.Memory.{
  Envelope, MemoryQueue, new_queue, enqueue, receive_round, ack, nack, extend_visibility, close,
}
use saral.Queue.Map.{Entry, weigh}
use saral.Queue.Trace.{Call, enqueued_or, perform, run}
use saral.Queue.Invariant.{Waiting, Flying, IsValid, new_queue-IsValid, scan-drawn}
use saral.Queue.Methods.{perform-IsValid}
use saral.Queue.Budget.{
  left, budget, deliveries, only, receive_round-budget, ack-budget, nack-budget,
  extend_visibility-budget,
}

-- The deliveries still open to message `x`: its budget, or all of them if its id is not yet drawn.
abbrev cap : ℕ → MemoryQueue → ℕ
cap x q = if ltb x q.drawn then budget (only x) q else q.max_receive_count

module _ (max_count drawn x : ℕ) (above : drawn ≤ x) where
  left_waiting :
      (es : List Envelope)
      → All (Waiting max_count drawn) es
      → sum_of (left max_count (only x)) es ≡ 0
  left_waiting [] h = refl
  left_waiting (e ∷ es) (w, h) = ground (arith, left_waiting es h)

  left_flying :
      (m : List (ℕ × Envelope))
      → All (Entry (Flying max_count drawn)) m
      → weigh (left max_count (only x)) m ≡ 0
  left_flying [] h = refl
  left_flying ((k, e) ∷ m) (w, h) = ground (arith, left_flying m h)

-- A message that is not yet there has no budget.
budget_absent : (x : ℕ) (q : MemoryQueue) → IsValid q → q.drawn ≤ x → budget (only x) q ≡ 0
budget_absent x q v above = omega (
  arith,
  left_waiting q.max_receive_count q.drawn x above q.messages v.waiting,
  left_flying q.max_receive_count q.drawn x above q.in_flight v.flying,
)

perform-max_receive_count :
    (c : Call) (q : MemoryQueue) → (perform c q).0.max_receive_count ≡ q.max_receive_count
unfolding perform enqueue receive_round ack nack extend_visibility close
perform-max_receive_count c q = ground arith

perform-drawn : (c : Call) (q : MemoryQueue) → q.drawn ≤ (perform c q).0.drawn
unfolding perform enqueue receive_round ack nack extend_visibility close
perform-drawn (Call.round now limit) q =
    scan-drawn now q.visibility_timeout_ms q.max_receive_count limit q.messages _
perform-drawn c q = ground arith

enqueue-budget :
    (now : ℕ) (job : Job) (delay x : ℕ) (q : MemoryQueue)
    → budget (only x) (enqueued_or q (enqueue now job delay q))
      ≤ budget (only x) q + (if q.drawn == x then q.max_receive_count else 0)
unfolding enqueue
enqueue-budget now job delay x q =
    let e : Envelope = record {
      id = q.drawn;
      job = job;
      receipt_handle = q.drawn + 1;
      received_count = 0;
      visible_at = now + delay * 1000;
    } in
    ground (arith, sum_of-append (left q.max_receive_count (only x)) q.messages (e ∷ []))

perform-budget :
    (c : Call) (x : ℕ) (q : MemoryQueue)
    → x < q.drawn
    → deliveries (only x) (perform c q).1 + budget (only x) (perform c q).0 ≤ budget (only x) q
unfolding perform close
perform-budget (Call.enqueue now job delay) x q h = ground (arith, enqueue-budget now job delay x q)
perform-budget (Call.round now limit) x q h = receive_round-budget now limit (only x) q
perform-budget (Call.ack m) x q h = omega (arith, ack-budget m (only x) q)
perform-budget (Call.nack now m) x q h = omega (arith, nack-budget now m (only x) q)
perform-budget (Call.extend_visibility now m seconds) x q h =
    omega (arith, extend_visibility-budget now m seconds (only x) q)
perform-budget Call.close x q h = omega arith

perform-budget_absent :
    (c : Call) (x : ℕ) (q : MemoryQueue)
    → IsValid q
    → q.drawn ≤ x
    → deliveries (only x) (perform c q).1 + budget (only x) (perform c q).0 ≤ q.max_receive_count
unfolding perform close
perform-budget_absent (Call.enqueue now job delay) x q v h =
    ground (arith, enqueue-budget now job delay x q, budget_absent x q v h)
perform-budget_absent (Call.round now limit) x q v h =
    omega (arith, receive_round-budget now limit (only x) q, budget_absent x q v h)
perform-budget_absent (Call.ack m) x q v h =
    omega (arith, ack-budget m (only x) q, budget_absent x q v h)
perform-budget_absent (Call.nack now m) x q v h =
    omega (arith, nack-budget now m (only x) q, budget_absent x q v h)
perform-budget_absent (Call.extend_visibility now m seconds) x q v h =
    omega (arith, extend_visibility-budget now m seconds (only x) q, budget_absent x q v h)
perform-budget_absent Call.close x q v h = omega (arith, budget_absent x q v h)

-- Only the id that is drawn gets a delivery before it is drawn, which is none.
perform-none_absent :
    (c : Call) (x : ℕ) (q : MemoryQueue)
    → IsValid q
    → q.drawn ≤ x
    → deliveries (only x) (perform c q).1 ≡ 0
unfolding perform close
perform-none_absent (Call.round now limit) x q v h =
    omega (arith, receive_round-budget now limit (only x) q, budget_absent x q v h)
perform-none_absent c x q v h = refl

perform-cap :
    (c : Call) (x : ℕ) (q : MemoryQueue)
    → IsValid q
    → deliveries (only x) (perform c q).1 + cap x (perform c q).0 ≤ cap x q
perform-cap c x q v = elim (Bool-cases (ltb x q.drawn)) [
  | inl old ↦ ground (arith, perform-budget c x q, perform-drawn c q)
  | inr new ↦ ground (
    arith,
    perform-budget_absent c x q v,
    perform-none_absent c x q v,
    perform-max_receive_count c q,
  )
]

run-cap :
    (cs : List Call) (x : ℕ) (q : MemoryQueue)
    → IsValid q
    → deliveries (only x) (run cs q).1 ≤ cap x q
unfolding run
run-cap [] x q v = omega arith
run-cap (c ∷ cs) x q v = omega (
  arith,
  perform-cap c x q v,
  run-cap cs x (perform c q).0 (perform-IsValid c q v),
  tally-append (λ (m : QueueMessage). m.id == x) (perform c q).1 (run cs (perform c q).0).1,
)

-- Whatever is called in whatever order and at whatever times on a queue made with a ceiling, no
-- message is delivered more often than the ceiling.
pub deliveries-le_ceiling :
    (timeout_ms max_count : ℕ) (cs : List Call) (x : ℕ)
    → deliveries (only x) (run cs (new_queue timeout_ms max_count)).1 ≤ max_count
unfolding new_queue
deliveries-le_ceiling timeout_ms max_count cs x =
    ground (
      arith,
      run-cap cs x (new_queue timeout_ms max_count) (new_queue-IsValid timeout_ms max_count),
    )
