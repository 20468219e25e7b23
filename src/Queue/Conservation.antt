-- ===== src/Queue/Conservation.antt =====
-- InMemoryQueue (src/adapters/local/InMemoryQueue.ts) loses and invents no message: each one is in
-- exactly one of the three stores until it is acknowledged.
use saral.Base.{
  ℕ, ◌+◌, ◌*◌, ◌≡◌, none, some, Option, List, [], ◌∷◌, arith, ltb, ◌==◌, if◌then◌else◌, All,
  All-map, sum_of, sum_of-append, length, Bool-cases, Option-cases, inl, inr,
}
use saral.Jobs.{Job}
use saral.Queue.Port.{QueueMessage}
use saral.Queue.Memory.{
  Envelope, MemoryQueue, Pass, map_get, enqueue, deliver, visit, scan, start_pass, receive_round,
  ack, nack, extend_visibility, close,
}
use saral.Queue.Map.{
  weigh, weigh-map_set_fresh, weigh-map_set_old, weigh-map_delete, map_get_fresh, map_delete_absent,
}
use saral.Queue.Trace.{Call, enqueued_or, perform}
use saral.Queue.Invariant.{Waiting, IsValid, PassIsValid, visit-drawn, visit-IsValid, Waiting-mono}

abbrev pub is_message : ℕ → Envelope → ℕ
is_message x e = if e.id == x then 1 else 0

-- How many envelopes of message `x` the queue holds.
abbrev pub stored : ℕ → MemoryQueue → ℕ
stored x q =
    sum_of (is_message x) q.messages
    + weigh (is_message x) q.in_flight
    + sum_of (is_message x) q.dead_letters

abbrev held_of : ℕ → Option Envelope → ℕ
held_of x none = 0
held_of x (some e) = is_message x e

-- The envelopes of `x` that a call removes for good: those whose current handle is acknowledged.
abbrev pub acknowledged : ℕ → Call → MemoryQueue → ℕ
acknowledged x (Call.ack m) q = held_of x (map_get m.receipt_handle q.in_flight)
acknowledged x c q = 0

-- The envelopes of `x` that a call creates: an `enqueue` on an open queue draws the next id.
abbrev pub created : ℕ → Call → MemoryQueue → ℕ
created x (Call.enqueue now job delay) q = if q.closed then 0 else if q.drawn == x then 1 else 0
created x c q = 0

abbrev pass_stored : ℕ → Pass → ℕ
pass_stored x p =
    sum_of (is_message x) p.kept
    + weigh (is_message x) p.in_flight
    + sum_of (is_message x) p.dead_letters

module _ (now timeout max_count x : ℕ) where
  deliver-stored :
      (e : Envelope) (p : Pass)
      → PassIsValid max_count p
      → pass_stored x (deliver now timeout max_count e p) ≡ pass_stored x p + is_message x e
  unfolding deliver
  deliver-stored e p v =
      let fresh : Envelope = record e {
        received_count = e.received_count + 1;
        receipt_handle = p.drawn;
        visible_at = now + timeout;
      } in
      let counted : Envelope = record e { received_count = e.received_count + 1 } in
      let free =
        map_get_fresh p.drawn p.in_flight
          (All-map (λ (kv : ℕ × Envelope) f. f.4) p.in_flight v.flying) in
      ground (
        arith,
        weigh-map_set_fresh (is_message x) p.drawn fresh p.in_flight free,
        sum_of-append (is_message x) p.dead_letters (counted ∷ []),
      )

  visit-stored :
      (e : Envelope) (p : Pass)
      → PassIsValid max_count p
      → pass_stored x (visit now timeout max_count e p) ≡ pass_stored x p + is_message x e
  unfolding visit
  visit-stored e p v =
      ground (arith, deliver-stored e p v, sum_of-append (is_message x) p.kept (e ∷ []))

  scan-stored :
      (limit : ℕ) (es : List Envelope) (p : Pass)
      → All (Waiting max_count p.drawn) es
      → PassIsValid max_count p
      → pass_stored x (scan now timeout max_count limit es p)
        ≡ pass_stored x p + sum_of (is_message x) es
  unfolding scan
  scan-stored limit [] p h v = omega arith
  scan-stored limit (e ∷ es) p (w, h) v =
      let after = visit now timeout max_count e p in
      let later =
        Waiting-mono max_count p.drawn after.drawn es (visit-drawn now timeout max_count e p) h in
      elim (Bool-cases (ltb (length p.ready) limit)) [
        | inl room ↦ rw room (
            omega (
              arith,
              visit-stored e p v,
              scan-stored limit es after later (visit-IsValid now timeout max_count e p w v),
            ))
        | inr full ↦ rw full (omega (arith, sum_of-append (is_message x) p.kept (e ∷ es)))
      ]

receive_round-stored :
    (now limit x : ℕ) (q : MemoryQueue)
    → IsValid q
    → stored x (receive_round now limit q).0 ≡ stored x q
unfolding receive_round
receive_round-stored now limit x q v = omega (
  arith,
  scan-stored now q.visibility_timeout_ms q.max_receive_count x limit q.messages (start_pass q)
      v.waiting (record { waiting = tt; flying = v.flying; dead = v.dead }),
)

enqueue-stored :
    (now : ℕ) (job : Job) (delay x : ℕ) (q : MemoryQueue)
    → stored x (enqueued_or q (enqueue now job delay q))
      ≡ stored x q + created x (Call.enqueue now job delay) q
unfolding enqueue
enqueue-stored now job delay x q =
    let e : Envelope = record {
      id = q.drawn;
      job = job;
      receipt_handle = q.drawn + 1;
      received_count = 0;
      visible_at = now + delay * 1000;
    } in
    ground (arith, sum_of-append (is_message x) q.messages (e ∷ []))

pub ack-stored :
    (m : QueueMessage) (x : ℕ) (q : MemoryQueue)
    → stored x (ack m q) + acknowledged x (Call.ack m) q ≡ stored x q
unfolding ack
ack-stored m x q = elim (Option-cases (map_get m.receipt_handle q.in_flight)) [
  | inl gone ↦ ground (arith, map_delete_absent m.receipt_handle q.in_flight gone)
  | inr (e, held) ↦
      ground (arith, weigh-map_delete (is_message x) m.receipt_handle e q.in_flight held)
]

pub nack-stored :
    (now : ℕ) (m : QueueMessage) (x : ℕ) (q : MemoryQueue) → stored x (nack now m q) ≡ stored x q
unfolding nack
nack-stored now m x q = elim (Option-cases (map_get m.receipt_handle q.in_flight)) [
  | inl gone ↦ ground arith
  | inr (e, held) ↦ ground (
    arith,
    weigh-map_delete (is_message x) m.receipt_handle e q.in_flight held,
    sum_of-append (is_message x) q.messages (record e { visible_at = now } ∷ []),
  )
]

extend_visibility-stored :
    (now : ℕ) (m : QueueMessage) (seconds x : ℕ) (q : MemoryQueue)
    → stored x (extend_visibility now m seconds q) ≡ stored x q
unfolding extend_visibility
extend_visibility-stored now m seconds x q =
    elim (Option-cases (map_get m.receipt_handle q.in_flight)) [
      | inl gone ↦ ground arith
      | inr (e, held) ↦
          let later : Envelope = record e { visible_at = now + seconds * 1000 } in
          ground (arith, weigh-map_set_old (is_message x) m.receipt_handle later e q.in_flight held)
    ]

-- On a well-formed queue every call conserves each message: the envelopes of `x` after the call
-- and those whose current handle it acknowledges are the envelopes before it and those it creates.
pub perform-stored :
    (c : Call) (x : ℕ) (q : MemoryQueue)
    → IsValid q
    → stored x (perform c q).0 + acknowledged x c q ≡ stored x q + created x c q
unfolding perform close
perform-stored (Call.enqueue now job delay) x q v = omega (arith, enqueue-stored now job delay x q)
perform-stored (Call.round now limit) x q v = omega (arith, receive_round-stored now limit x q v)
perform-stored (Call.ack m) x q v = omega (arith, ack-stored m x q)
perform-stored (Call.nack now m) x q v = omega (arith, nack-stored now m x q)
perform-stored (Call.extend_visibility now m seconds) x q v =
    omega (arith, extend_visibility-stored now m seconds x q)
perform-stored Call.close x q v = omega arith
