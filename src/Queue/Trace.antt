-- ===== src/Queue/Trace.antt =====
-- Sequences of calls of InMemoryQueue's methods (src/adapters/local/InMemoryQueue.ts), in the
-- order in which the event loop makes them, and the polling loop of `receive`, which lets other
-- calls run between two of its rounds.
use saral.Base.{ℕ, Bool, not, ◌||◌, Option, none, some, List, [], ◌∷◌, ◌++◌, leb, if◌then◌else◌}
use saral.Jobs.{Job}
use saral.Queue.Port.{QueueMessage}
use saral.Queue.Memory
use saral.Queue.Memory.{MemoryQueue, receive_round}

-- A call that another task makes. `round` is one round of the polling loop of `receive`.
pub data Call : Type 0 where
  enqueue : (now : ℕ) (job : Job) (delay_seconds : ℕ) → Call
  round : (now limit : ℕ) → Call
  ack : QueueMessage → Call
  nack : (now : ℕ) → QueueMessage → Call
  extend_visibility : (now : ℕ) → QueueMessage → (seconds : ℕ) → Call
  close : Call

-- A refused `enqueue` leaves the queue as it was.
abbrev pub enqueued_or : MemoryQueue → Option (MemoryQueue × ℕ) → MemoryQueue
enqueued_or q none = q
enqueued_or q (some (q', id)) = q'

-- The queue after a call, and the messages that the call hands out.
unfoldable pub perform : Call → MemoryQueue → MemoryQueue × List QueueMessage
perform (Call.enqueue now job delay) q = (enqueued_or q (Memory.enqueue now job delay q), [])
perform (Call.round now limit) q = receive_round now limit q
perform (Call.ack m) q = (Memory.ack m q, [])
perform (Call.nack now m) q = (Memory.nack now m q, [])
perform (Call.extend_visibility now m seconds) q = (Memory.extend_visibility now m seconds q, [])
perform Call.close q = (Memory.close q, [])

unfoldable pub run : List Call → MemoryQueue → MemoryQueue × List QueueMessage
run [] q = (q, [])
run (c ∷ cs) q = let (q1, out) = perform c q in let (q2, rest) = run cs q1 in (q2, out ++ rest)

-- One round of `for (;;)`: the clock at its start, the clock at its test, and the calls that run
-- during the 100 ms pause after it.
pub record Round : Type 0 where
  pub now : ℕ
  pub tested_at : ℕ
  pub others : List Call

abbrev pub is_empty : List QueueMessage → Bool
is_empty [] = Bool.true
is_empty (m ∷ ms) = Bool.false

-- `none` means that the rounds have run out before the loop ends.
unfoldable pub receive :
    (limit deadline : ℕ) → List Round → MemoryQueue → Option (MemoryQueue × List QueueMessage)
receive limit deadline [] q = none
receive limit deadline (r ∷ rs) q =
    let (q1, ready) = receive_round r.now limit q in
    let rest = receive limit deadline rs (run r.others q1).0 in
    if not (is_empty ready) || q1.closed || leb deadline r.tested_at then some (q1, ready) else rest
