-- ===== src/Queue/Retention.antt =====
-- What becomes of a message of InMemoryQueue (src/adapters/local/InMemoryQueue.ts) that its consumer
-- never settles, and when the polling loop of `receive` ends.
use saral.Base.{
  ℕ, ◌+◌, ◌*◌, ◌≤◌, ◌<◌, ◌≡◌, refl, ap, ==_iff, ◌⊎◌, ◌∙◌, Bool, false, true, some, List, [], ◌∷◌,
  arith, leb, ◌==◌, ◌||◌, not, All, Bool-cases, Option-cases, inl, inr,
}
use saral.Queue.Port.{QueueMessage}
use saral.Queue.Memory.{
  Envelope, MemoryQueue, Pass, map_get, enqueue, deliver, visit, scan, start_pass, receive_round,
  ack, nack, extend_visibility, close,
}
use saral.Queue.Map.{map_get-map_set, map_get-map_delete_ne}
use saral.Queue.Trace.{Call, Round, is_empty, perform, run, receive}
use saral.Queue.Invariant.{visit-drawn, scan-drawn}

-- The call settles the delivery with handle `k`.
abbrev pub settles : ℕ → Call → Bool
settles k (Call.ack m) = m.receipt_handle == k
settles k (Call.nack now m) = m.receipt_handle == k
settles k c = false

-- The same message, with the same count and handle, is in flight under `k`.
abbrev pub StillInFlight : ℕ → Envelope → MemoryQueue → Type 0
StillInFlight k e q =
    (at : ℕ) × (map_get k q.in_flight ≡ some (record e { visible_at = at })) × (k < q.drawn)

visit-keeps :
    (now timeout max_count k : ℕ) (e : Envelope) (p : Pass)
    → k < p.drawn
    → map_get k (visit now timeout max_count e p).in_flight ≡ map_get k p.in_flight
unfolding visit deliver
visit-keeps now timeout max_count k e p lt =
    let fresh : Envelope = record e {
      received_count = e.received_count + 1;
      receipt_handle = p.drawn;
      visible_at = now + timeout;
    } in
    ground (arith, map_get-map_set p.drawn k fresh p.in_flight)

scan-keeps :
    (now timeout max_count limit k : ℕ) (es : List Envelope) (p : Pass)
    → k < p.drawn
    → map_get k (scan now timeout max_count limit es p).in_flight ≡ map_get k p.in_flight
unfolding scan
scan-keeps now timeout max_count limit k [] p lt = refl
scan-keeps now timeout max_count limit k (e ∷ es) p lt = ground (
  arith,
  scan-keeps now timeout max_count limit k es (visit now timeout max_count e p),
  visit-keeps now timeout max_count k e p,
  visit-drawn now timeout max_count e p,
)

perform-StillInFlight :
    (k : ℕ) (e : Envelope) (c : Call) (q : MemoryQueue)
    → settles k c ≡ false
    → StillInFlight k e q
    → StillInFlight k e (perform c q).0
unfolding perform enqueue receive_round ack nack extend_visibility close
perform-StillInFlight k e (Call.enqueue now job delay) q s (at, here, lt) =
    (at, ground arith, ground arith)
perform-StillInFlight k e (Call.round now limit) q s (at, here, lt) = (
  at,
  scan-keeps now q.visibility_timeout_ms q.max_receive_count limit k q.messages (start_pass q) lt
      ∙ here,
  omega (
    arith,
    scan-drawn now q.visibility_timeout_ms q.max_receive_count limit q.messages (start_pass q),
  ),
)
perform-StillInFlight k e (Call.ack m) q s (at, here, lt) =
    (at, map_get-map_delete_ne m.receipt_handle k q.in_flight s ∙ here, lt)
perform-StillInFlight k e (Call.nack now m) q s (at, here, lt) =
    (at, ground (arith, map_get-map_delete_ne m.receipt_handle k q.in_flight s), ground arith)
perform-StillInFlight k e (Call.extend_visibility now m seconds) q s (at, here, lt) =
    elim (Bool-cases (m.receipt_handle == k)) [
      | inl same ↦
          let later : Envelope = record e { visible_at = now + seconds * 1000 } in
          let moved = ap (λ j. map_get j q.in_flight) ((==_iff m.receipt_handle k).0 same) in
          (
            now + seconds * 1000,
            ground (arith, moved, map_get-map_set m.receipt_handle k later q.in_flight),
            ground (arith, moved),
          )
      | inr other ↦ elim (Option-cases (map_get m.receipt_handle q.in_flight)) [
        | inl gone ↦ (at, ground arith, ground arith)
        | inr (d, held) ↦
            let later : Envelope = record d { visible_at = now + seconds * 1000 } in
            (at, ground (arith, map_get-map_set m.receipt_handle k later q.in_flight), ground arith)
      ]
    ]
perform-StillInFlight k e Call.close q s h = h

-- A delivery that nobody acknowledges or returns stays in flight with its count and handle
-- unchanged, whatever else is called and however late: its visibility timeout is never looked at.
pub run-StillInFlight :
    (k : ℕ) (e : Envelope) (cs : List Call) (q : MemoryQueue)
    → All (λ c. settles k c ≡ false) cs
    → StillInFlight k e q
    → StillInFlight k e (run cs q).0
unfolding run
run-StillInFlight k e [] q s h = h
run-StillInFlight k e (c ∷ cs) q (s, ss) h =
    run-StillInFlight k e cs (perform c q).0 ss (perform-StillInFlight k e c q s h)

-- Some round of the polling loop tests the clock at or after the deadline.
abbrev pub IsDue : ℕ → List Round → Type 0
IsDue deadline [] = ⊥
IsDue deadline (r ∷ rs) = (deadline ≤ r.tested_at) ⊎ IsDue deadline rs

-- The polling loop of `receive` ends, whatever runs between its rounds, once a round tests the
-- clock at or after the deadline.
pub receive_ends :
    (limit deadline : ℕ) (rs : List Round) (q : MemoryQueue)
    → IsDue deadline rs
    → (r : MemoryQueue × List QueueMessage) × (receive limit deadline rs q ≡ some r)
unfolding receive
receive_ends limit deadline [] q due = absurd due
receive_ends limit deadline (r ∷ rs) q due =
    let (q1, ready) = receive_round r.now limit q in
    elim (Bool-cases (not (is_empty ready) || q1.closed || leb deadline r.tested_at)) [
      | inl stop ↦ ((q1, ready), rw stop)
      | inr again ↦
          rw again (receive_ends limit deadline rs (run r.others q1).0 (ground (arith, due)))
    ]

-- An empty answer comes only from a closed queue or after the deadline.
pub receive_empty :
    (limit deadline : ℕ) (rs : List Round) (q q' : MemoryQueue)
    → receive limit deadline rs q ≡ some (q', [])
    → (q'.closed ≡ true) ⊎ IsDue deadline rs
unfolding receive
receive_empty limit deadline [] q q' h = cc
receive_empty limit deadline (r ∷ rs) q q' h =
    ground
      (arith, receive_empty limit deadline rs (run r.others (receive_round r.now limit q).0).0 q')
