-- ===== src/Worker/Settling.antt =====
-- What becomes of a message that JobRunner.process (src/worker/JobRunner.ts) has handled.
use saral.Base.{
  ℕ, ◌+◌, ◌*◌, ◌≤◌, ◌<◌, ◌≡◌, refl, ◌↔◌, ◌≢◌, ◌⊎◌, Bool, true, false, Option, none, some, [], ◌∷◌,
  ◌++◌, arith, inl, inr,
}
use saral.Queue.Port.{QueueMessage}
use saral.Queue.Memory
use saral.Queue.Memory.{Envelope, MemoryQueue, map_get}
use saral.Queue.Conservation.{stored, is_message, ack-stored, nack-stored}
use saral.Worker.Process.{
  SettlingPort, Verdict, succeeded, unprocessable_job_error, zod_error, failed, Handlers,
  heartbeat_ms, return_to_queue, ack_or_return, conclude, settle, run_handler, process,
}

-- Two heartbeats fit into the visibility timeout exactly if it is at least a minute, and one
-- comes before it ends exactly if it is more than half a minute.
pub heartbeat_in_time :
    (seconds : ℕ)
    → ((heartbeat_ms seconds * 2 ≤ seconds * 1000) ↔ (60 ≤ seconds))
      × ((heartbeat_ms seconds < seconds * 1000) ↔ (30 < seconds))
unfolding heartbeat_ms
heartbeat_in_time seconds = ground arith

-- The message is to be dropped, in a state of the world.
abbrev pub DropsIn : {S : Type 0} → S → Option (S × Verdict) → S → Type 0
DropsIn s none t = t ≡ s
DropsIn s (some (t', unprocessable_job_error)) t = t ≡ t'
DropsIn s (some (t', zod_error)) t = t ≡ t'
DropsIn s (some (t', v)) t = ⊥

settle_rejects_iff :
    {S : Type 0} (port : SettlingPort S) (message : QueueMessage) (s : S) (o : Option (S × Verdict))
    → ((settle port message s o).1 ≡ true)
      ↔ ((t : S) × DropsIn s o t × ((port.ack message t).1 ≡ true))
unfolding settle conclude ack_or_return return_to_queue
settle_rejects_iff port message s none = (λ h. (s, refl, h), λ (t, e, h). rw e at h)
settle_rejects_iff port message s (some (t, succeeded)) =
    (λ h. ground (arith, h), λ (t', e, h). absurd e)
settle_rejects_iff port message s (some (t, unprocessable_job_error)) =
    (λ h. (t, refl, h), λ (t', e, h). rw e at h)
settle_rejects_iff port message s (some (t, zod_error)) =
    (λ h. (t, refl, h), λ (t', e, h). rw e at h)
settle_rejects_iff port message s (some (t, failed)) = (λ h. cc, λ (t', e, h). absurd e)

-- The promise of `process` is rejected exactly if the message was to be dropped (no handler, an
-- unprocessable job or a failed validation) and the ack that drops it threw.
pub process_rejects_iff :
    {S : Type 0} (port : SettlingPort S) (message : QueueMessage) (handlers : Handlers S)
    (aborted : Bool) (s : S)
    → ((process port message handlers aborted s).1 ≡ true) ↔ (
        (t : S) × DropsIn s (run_handler message handlers aborted s) t
        × ((port.ack message t).1 ≡ true))
unfolding process
process_rejects_iff port message handlers aborted s =
    settle_rejects_iff port message s (run_handler message handlers aborted s)

-- The in-memory queue as a port at the time `now`: neither call throws.
abbrev pub memory_port : ℕ → SettlingPort MemoryQueue
memory_port now = record {
  ack = λ m q. (Memory.ack m q, false);
  nack = λ m q. (Memory.nack now m q, false);
}

ack-removes :
    (x : ℕ) (message : QueueMessage) (q : MemoryQueue) (e : Envelope)
    → map_get message.receipt_handle q.in_flight ≡ some e
    → stored x (Memory.ack message q) + is_message x e ≡ stored x q
ack-removes x message q e held = rw held at (ack-stored message x q)

nack-returns :
    (now : ℕ) (message : QueueMessage) (q : MemoryQueue) (e : Envelope)
    → map_get message.receipt_handle q.in_flight ≡ some e
    → (Memory.nack now message q).messages ≡ q.messages ++ record e { visible_at = now } ∷ []
unfolding Memory.nack
nack-returns now message q e held = ground arith

settle-stored :
    (now x : ℕ) (message : QueueMessage) (q q' : MemoryQueue) (v : Verdict) (e : Envelope)
    → map_get message.receipt_handle q'.in_flight ≡ some e
    → let after = (settle (memory_port now) message q (some (q', v))).0 in
      ((v ≡ failed)
        × (after.messages ≡ q'.messages ++ record e { visible_at = now } ∷ [])
        × (stored x after ≡ stored x q'))
      ⊎ ((v ≢ failed) × (stored x after + is_message x e ≡ stored x q'))
unfolding settle conclude ack_or_return return_to_queue
settle-stored now x message q q' succeeded e held = inr (λ h. cc, ack-removes x message q' e held)
settle-stored now x message q q' unprocessable_job_error e held =
    inr (λ h. cc, ack-removes x message q' e held)
settle-stored now x message q q' zod_error e held = inr (λ h. cc, ack-removes x message q' e held)
settle-stored now x message q q' failed e held =
    inl (refl, nack-returns now message q' e held, nack-stored now message x q')

-- On the in-memory queue, let the handler end in a state in which its delivery is still in flight.
-- If it failed, the message waits again, visible at once and with its count unchanged, and no
-- message is gained or lost. Otherwise the message is gone, and no other.
pub process-stored :
    (now x : ℕ) (message : QueueMessage) (handlers : Handlers MemoryQueue) (aborted : Bool)
    (q q' : MemoryQueue) (v : Verdict) (e : Envelope)
    → run_handler message handlers aborted q ≡ some (q', v)
    → map_get message.receipt_handle q'.in_flight ≡ some e
    → let after = (process (memory_port now) message handlers aborted q).0 in
      ((v ≡ failed)
        × (after.messages ≡ q'.messages ++ record e { visible_at = now } ∷ [])
        × (stored x after ≡ stored x q'))
      ⊎ ((v ≢ failed) × (stored x after + is_message x e ≡ stored x q'))
unfolding process
process-stored now x message handlers aborted q q' v e ran held =
    rw ran (settle-stored now x message q q' v e held)
