-- ===== src/Queue/Delivery.antt =====
-- What a round of InMemoryQueue.receive (src/adapters/local/InMemoryQueue.ts) hands out.
use saral.Base.{
  ℕ, ◌+◌, ◌≤◌, ◌<◌, ◌≡◌, refl, some, List, [], ◌∷◌, arith, ltb, All, All-map, All-append, length,
  length-append, Bool-cases, inl, inr,
}
use saral.Queue.Port.{QueueMessage}
use saral.Queue.Memory.{
  Envelope, MemoryQueue, Pass, map_get, map_set, to_message, deliver, visit, scan, start_pass,
  receive_round,
}
use saral.Queue.Map.{map_get-map_set}

-- What a consumer is told of a message is what the queue holds in flight under its handle.
abbrev pub HandedOut : (max_count drawn : ℕ) → List (ℕ × Envelope) → QueueMessage → Type 0
HandedOut max_count drawn flights m =
    (e : Envelope) × (map_get m.receipt_handle flights ≡ some e)
    × (to_message e ≡ m)
    × (m.receipt_handle < drawn)
    × (1 ≤ m.received_count)
    × (m.received_count ≤ max_count)

module _ (now timeout max_count : ℕ) where
  HandedOut-map_set :
      (drawn : ℕ) (v : Envelope) (flights : List (ℕ × Envelope)) (m : QueueMessage)
      → HandedOut max_count drawn flights m
      → HandedOut max_count (drawn + 1) (map_set drawn v flights) m
  HandedOut-map_set drawn v flights m h = (
    h.0,
    ground (arith, map_get-map_set drawn m.receipt_handle v flights),
    h.2,
    omega arith,
    h.4,
    h.5,
  )

  visit-HandedOut :
      (e : Envelope) (p : Pass)
      → All (HandedOut max_count p.drawn p.in_flight) p.ready
      → let p' = visit now timeout max_count e p in
        All (HandedOut max_count p'.drawn p'.in_flight) p'.ready
  unfolding visit deliver
  visit-HandedOut e p h = elim (Bool-cases (ltb now e.visible_at)) [
    | inl hidden ↦ rw hidden h
    | inr due ↦ elim (Bool-cases (ltb max_count (e.received_count + 1))) [
      | inl over ↦ rw (due, over) h
      | inr within ↦
          let fresh : Envelope = record e {
            received_count = e.received_count + 1;
            receipt_handle = p.drawn;
            visible_at = now + timeout;
          } in
          rw (due, within)
            (All-append (HandedOut max_count (p.drawn + 1) (map_set p.drawn fresh p.in_flight))
              p.ready (to_message fresh ∷ [])
              (All-map (HandedOut-map_set p.drawn fresh p.in_flight) p.ready h)
              (
                (
                  fresh,
                  ground (arith, map_get-map_set p.drawn p.drawn fresh p.in_flight),
                  refl,
                  omega arith,
                  omega arith,
                  ground arith,
                ),
                tt,
              ))
    ]
  ]

  visit-ready :
      (e : Envelope) (p : Pass)
      → length (visit now timeout max_count e p).ready ≤ length p.ready + 1
  unfolding visit deliver
  visit-ready e p = ground (
    arith,
    length-append p.ready (
        to_message (record e {
          received_count = e.received_count + 1;
          receipt_handle = p.drawn;
          visible_at = now + timeout;
        })
        ∷ []),
  )

  scan-HandedOut :
      (limit : ℕ) (es : List Envelope) (p : Pass)
      → All (HandedOut max_count p.drawn p.in_flight) p.ready
      → length p.ready ≤ limit
      → let p' = scan now timeout max_count limit es p in
        All (HandedOut max_count p'.drawn p'.in_flight) p'.ready × (length p'.ready ≤ limit)
  unfolding scan
  scan-HandedOut limit [] p h le = (h, le)
  scan-HandedOut limit (e ∷ es) p h le = elim (Bool-cases (ltb (length p.ready) limit)) [
    | inl room ↦ rw room (
        scan-HandedOut limit es (visit now timeout max_count e p) (visit-HandedOut e p h)
          (ground (arith, visit-ready e p)))
    | inr full ↦ rw full (h, le)
  ]

-- A round of `receive` hands out at most `limit` messages, each with a count between one and the
-- ceiling, and each of them is then in flight under the handle that the consumer is given.
pub receive_round-HandedOut :
    (now limit : ℕ) (q : MemoryQueue)
    → let (q', ready) = receive_round now limit q in
      All (HandedOut q.max_receive_count q'.drawn q'.in_flight) ready × (length ready ≤ limit)
unfolding receive_round
receive_round-HandedOut now limit q =
    scan-HandedOut now q.visibility_timeout_ms q.max_receive_count limit q.messages (start_pass q)
      tt (omega arith)
