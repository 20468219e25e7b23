-- ===== src/Queue/Methods.antt =====
-- Every method of InMemoryQueue (src/adapters/local/InMemoryQueue.ts) keeps the queue well formed,
-- and no sequence of calls delivers a message more often than the ceiling allows.
use saral.Base.{ℕ, ◌+◌, ◌*◌, List, [], ◌∷◌, arith, All-append, Option-cases, Bool-cases, inl, inr}
use saral.Jobs.{Job}
use saral.Queue.Port.{QueueMessage}
use saral.Queue.Memory.{
  MemoryQueue, map_get, enqueue, start_pass, receive_round, ack, nack, extend_visibility, close,
}
use saral.Queue.Map.{All-map_set, All-map_delete, map_get-All}
use saral.Queue.Trace.{Call, enqueued_or, perform, run}
use saral.Queue.Invariant.{
  Waiting, Flying, IsValid, Waiting-mono, Flying-mono, Dead-mono, scan-IsValid,
}

pub receive_round-IsValid :
    (now limit : ℕ) (q : MemoryQueue) → IsValid q → IsValid (receive_round now limit q).0
unfolding receive_round
receive_round-IsValid now limit q v =
    let p =
      scan-IsValid now q.visibility_timeout_ms q.max_receive_count limit q.messages (start_pass q)
        v.waiting (record { waiting = tt; flying = v.flying; dead = v.dead }) in
    record { waiting = p.waiting; flying = p.flying; dead = p.dead }

enqueue-IsValid :
    (now : ℕ) (job : Job) (delay : ℕ) (q : MemoryQueue)
    → IsValid q
    → IsValid (enqueued_or q (enqueue now job delay q))
unfolding enqueue
enqueue-IsValid now job delay q v = elim (Bool-cases q.closed) [
  | inl shut ↦ rw shut (record { waiting = v.waiting; flying = v.flying; dead = v.dead })
  | inr opened ↦ rw opened (record {
    waiting =
        All-append (Waiting q.max_receive_count (q.drawn + 2)) q.messages _
          (Waiting-mono q.max_receive_count q.drawn (q.drawn + 2) q.messages (omega arith)
            v.waiting)
          (omega arith);
    flying =
        Flying-mono q.max_receive_count q.drawn (q.drawn + 2) q.in_flight (omega arith) v.flying;
    dead = Dead-mono q.max_receive_count q.drawn (q.drawn + 2) q.dead_letters (omega arith) v.dead;
  })
]

ack-IsValid : (m : QueueMessage) (q : MemoryQueue) → IsValid q → IsValid (ack m q)
unfolding ack
ack-IsValid m q v = record {
  waiting = v.waiting;
  flying =
      All-map_delete (Flying q.max_receive_count q.drawn) m.receipt_handle q.in_flight v.flying;
  dead = v.dead;
}

nack-IsValid : (now : ℕ) (m : QueueMessage) (q : MemoryQueue) → IsValid q → IsValid (nack now m q)
unfolding nack
nack-IsValid now m q v = elim (Option-cases (map_get m.receipt_handle q.in_flight)) [
  | inl gone ↦ rw (gone, nack) v
  | inr (e, held) ↦
      let P = Flying q.max_receive_count q.drawn in
      let flew = map_get-All P m.receipt_handle e q.in_flight v.flying held in
      rw (held, nack)
        (record {
          waiting =
              All-append (Waiting q.max_receive_count q.drawn) q.messages
                (record e { visible_at = now } ∷ []) v.waiting (omega arith);
          flying = All-map_delete P m.receipt_handle q.in_flight v.flying;
          dead = v.dead;
        })
]

extend_visibility-IsValid :
    (now : ℕ) (m : QueueMessage) (seconds : ℕ) (q : MemoryQueue)
    → IsValid q
    → IsValid (extend_visibility now m seconds q)
unfolding extend_visibility
extend_visibility-IsValid now m seconds q v =
    elim (Option-cases (map_get m.receipt_handle q.in_flight)) [
      | inl gone ↦ rw (gone, extend_visibility) v
      | inr (e, held) ↦
          let P = Flying q.max_receive_count q.drawn in
          let flew = map_get-All P m.receipt_handle e q.in_flight v.flying held in
          rw (held, extend_visibility)
            (record {
              waiting = v.waiting;
              flying =
                  All-map_set P m.receipt_handle (record e { visible_at = now + seconds * 1000 })
                    q.in_flight v.flying flew;
              dead = v.dead;
            })
    ]

pub perform-IsValid : (c : Call) (q : MemoryQueue) → IsValid q → IsValid (perform c q).0
unfolding perform close
perform-IsValid (Call.enqueue now job delay) q v = enqueue-IsValid now job delay q v
perform-IsValid (Call.round now limit) q v = receive_round-IsValid now limit q v
perform-IsValid (Call.ack m) q v = ack-IsValid m q v
perform-IsValid (Call.nack now m) q v = nack-IsValid now m q v
perform-IsValid (Call.extend_visibility now m seconds) q v =
    extend_visibility-IsValid now m seconds q v
perform-IsValid Call.close q v = record { waiting = v.waiting; flying = v.flying; dead = v.dead }

-- A well-formed queue stays well formed under every sequence of calls: the messages that wait were
-- received at most `max_receive_count` times, those in flight are filed under their own handle and
-- were received between one and `max_receive_count` times, and every dead letter was received
-- exactly once more than that.
pub run-IsValid : (cs : List Call) (q : MemoryQueue) → IsValid q → IsValid (run cs q).0
unfolding run
run-IsValid [] q v = v
run-IsValid (c ∷ cs) q v = run-IsValid cs (perform c q).0 (perform-IsValid c q v)
