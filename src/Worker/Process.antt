-- ===== src/Worker/Process.antt =====
-- JobRunner.process of src/worker/JobRunner.ts. The queue is an interface over a state of its own,
-- whose calls may throw. What happens while a handler runs, its heartbeats too, is part of the
-- handler's function on that state.
use saral.Base.{ℕ, ◌*◌, ◌/◌, max, Bool, true, false, Option, none, some}
use saral.Jobs.{Job, JobType, job_type}
use saral.Queue.Port.{QueueMessage}

-- The two calls of the queue port that settle a message. `true` stands for a thrown error.
pub record SettlingPort (S : Type 0) : Type 0 where
  pub ack : QueueMessage → S → S × Bool
  pub nack : QueueMessage → S → S × Bool

pub record JobContext : Type 0 where
  pub message_id : ℕ
  pub attempt : ℕ
  pub aborted : Bool

-- How a handler ends. The two errors that are not retried are classes of their own.
pub data Verdict : Type 0 where
  succeeded unprocessable_job_error zod_error failed : Verdict

abbrev pub Handler : Type 0 → Type 0
Handler S = Job → JobContext → S → S × Verdict

-- `Partial<Record<JobType, JobHandler>>`.
abbrev pub Handlers : Type 0 → Type 0
Handlers S = JobType → Option (Handler S)

-- The period of the heartbeat, in milliseconds.
unfoldable pub heartbeat_ms : ℕ → ℕ
heartbeat_ms visibility_timeout_seconds = max (visibility_timeout_seconds * 1000 / 2) 30000

-- Looks up the handler of the job's type and calls it; `none` if there is none.
abbrev pub run_handler : {S : Type 0} → QueueMessage → Handlers S → Bool → S → Option (S × Verdict)
run_handler message handlers aborted s = elim (handlers (job_type message.job)) [
  | none ↦ none
  | some handler ↦ some (
      handler message.job
        (record { message_id = message.id; attempt = message.received_count; aborted = aborted }) s)
]

module _ {S : Type 0} (port : SettlingPort S) (message : QueueMessage) where
  -- `nack(…).catch(…)`: a failed nack is only logged.
  unfoldable pub return_to_queue : S → S × Bool
  return_to_queue s = ((port.nack message s).0, false)

  -- A failed ack after a success is caught by the same `catch`, as an ordinary error.
  unfoldable pub ack_or_return : S × Bool → S × Bool
  ack_or_return (s, true) = return_to_queue s
  ack_or_return (s, false) = (s, false)

  -- The rest of the `try` and its `catch`, once the handler has ended.
  unfoldable pub conclude : S × Verdict → S × Bool
  conclude (s, succeeded) = ack_or_return (port.ack message s)
  conclude (s, unprocessable_job_error) = port.ack message s
  conclude (s, zod_error) = port.ack message s
  conclude (s, failed) = return_to_queue s

  -- Without a handler the message is dropped.
  unfoldable pub settle : S → Option (S × Verdict) → S × Bool
  settle s none = port.ack message s
  settle s (some r) = conclude r

  -- The flag of the result says that the promise of `process` is rejected.
  unfoldable pub process : Handlers S → (aborted : Bool) → S → S × Bool
  process handlers aborted s = settle s (run_handler message handlers aborted s)
