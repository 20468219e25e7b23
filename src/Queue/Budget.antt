-- ===== src/Queue/Budget.antt =====
-- How often InMemoryQueue (src/adapters/local/InMemoryQueue.ts) can still deliver a message: the
-- redrive ceiling as a budget that each delivery spends.
use saral.Base.{
  ℕ, Bool, true, ◌+◌, ◌-◌, ◌*◌, ◌≤◌, List, [], ◌∷◌, arith, ltb, ◌==◌, if◌then◌else◌, sum_of,
  sum_of-append, tally, tally-append, length, Option-cases, Bool-cases, inl, inr,
}
use saral.Queue.Port.{QueueMessage}
use saral.Queue.Memory.{
  Envelope, MemoryQueue, Pass, map_get, deliver, visit, scan, start_pass, receive_round, to_message,
  ack, nack, extend_visibility,
}
use saral.Queue.Map.{
  weigh, weigh-map_set_le, weigh-map_set_old, weigh-map_delete, weigh-map_delete_le,
}

-- The deliveries that the ceiling leaves to an envelope, for the messages that are looked at: those
-- whose ids pass `p`.
abbrev pub left : (max_count : ℕ) (p : ℕ → Bool) → Envelope → ℕ
left max_count p e = if p e.id then max_count - e.received_count else 0

-- The same over the whole queue; a dead letter is never delivered again.
abbrev pub budget : (ℕ → Bool) → MemoryQueue → ℕ
budget p q =
    sum_of (left q.max_receive_count p) q.messages + weigh (left q.max_receive_count p) q.in_flight

abbrev pub deliveries : (ℕ → Bool) → List QueueMessage → ℕ
deliveries p = tally (λ m. p m.id)

-- One message, or all of them.
abbrev pub only : ℕ → ℕ → Bool
only x id = id == x

abbrev pub every : ℕ → Bool
every id = true

-- What a walk has spent so far and what is left.
abbrev pass_budget : (max_count : ℕ) → (ℕ → Bool) → Pass → ℕ
pass_budget max_count these p =
    deliveries these p.ready
    + sum_of (left max_count these) p.kept
    + weigh (left max_count these) p.in_flight

deliver-budget :
    (now timeout max_count : ℕ) (these : ℕ → Bool) (e : Envelope) (p : Pass)
    → pass_budget max_count these (deliver now timeout max_count e p)
      ≤ pass_budget max_count these p + left max_count these e
unfolding deliver
deliver-budget now timeout max_count these e p =
    let fresh : Envelope = record e {
      received_count = e.received_count + 1;
      receipt_handle = p.drawn;
      visible_at = now + timeout;
    } in
    ground (
      arith,
      weigh-map_set_le (left max_count these) p.drawn fresh p.in_flight,
      tally-append (λ (m : QueueMessage). these m.id) p.ready (to_message fresh ∷ []),
    )

visit-budget :
    (now timeout max_count : ℕ) (these : ℕ → Bool) (e : Envelope) (p : Pass)
    → pass_budget max_count these (visit now timeout max_count e p)
      ≤ pass_budget max_count these p + left max_count these e
unfolding visit
visit-budget now timeout max_count these e p = ground (
  arith,
  deliver-budget now timeout max_count these e p,
  sum_of-append (left max_count these) p.kept (e ∷ []),
)

scan-budget :
    (now timeout max_count limit : ℕ) (these : ℕ → Bool) (es : List Envelope) (p : Pass)
    → pass_budget max_count these (scan now timeout max_count limit es p)
      ≤ pass_budget max_count these p + sum_of (left max_count these) es
unfolding scan
scan-budget now timeout max_count limit these [] p = omega arith
scan-budget now timeout max_count limit these (e ∷ es) p =
    let after = visit now timeout max_count e p in
    elim (Bool-cases (ltb (length p.ready) limit)) [
      | inl room ↦ rw room (
          omega (
            arith,
            visit-budget now timeout max_count these e p,
            scan-budget now timeout max_count limit these es after,
          ))
      | inr full ↦ rw full (omega (arith, sum_of-append (left max_count these) p.kept (e ∷ es)))
    ]

-- A round of `receive` pays for each delivery from the budget.
pub receive_round-budget :
    (now limit : ℕ) (these : ℕ → Bool) (q : MemoryQueue)
    → deliveries these (receive_round now limit q).1 + budget these (receive_round now limit q).0
      ≤ budget these q
unfolding receive_round
receive_round-budget now limit these q = omega (
  arith,
  scan-budget now q.visibility_timeout_ms q.max_receive_count limit these q.messages (start_pass q),
)

pub ack-budget :
    (m : QueueMessage) (these : ℕ → Bool) (q : MemoryQueue)
    → budget these (ack m q) ≤ budget these q
unfolding ack
ack-budget m these q =
    omega (arith, weigh-map_delete_le (left q.max_receive_count these) m.receipt_handle q.in_flight)

pub nack-budget :
    (now : ℕ) (m : QueueMessage) (these : ℕ → Bool) (q : MemoryQueue)
    → budget these (nack now m q) ≤ budget these q
unfolding nack
nack-budget now m these q = elim (Option-cases (map_get m.receipt_handle q.in_flight)) [
  | inl gone ↦ ground arith
  | inr (e, held) ↦ ground (
    arith,
    weigh-map_delete (left q.max_receive_count these) m.receipt_handle e q.in_flight,
    sum_of-append (left q.max_receive_count these) q.messages (record e { visible_at = now } ∷ []),
  )
]

pub extend_visibility-budget :
    (now : ℕ) (m : QueueMessage) (seconds : ℕ) (these : ℕ → Bool) (q : MemoryQueue)
    → budget these (extend_visibility now m seconds q) ≤ budget these q
unfolding extend_visibility
extend_visibility-budget now m seconds these q =
    elim (Option-cases (map_get m.receipt_handle q.in_flight)) [
      | inl gone ↦ ground arith
      | inr (e, held) ↦
          let later : Envelope = record e { visible_at = now + seconds * 1000 } in
          ground (
            arith,
            weigh-map_set_old (left q.max_receive_count these) m.receipt_handle later e q.in_flight,
          )
    ]
