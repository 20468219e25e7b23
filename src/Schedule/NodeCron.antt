-- ===== src/Schedule/NodeCron.antt =====
-- The class NodeCronScheduler of src/adapters/local/NodeCronScheduler.ts over the in-memory queue.
-- node-cron's own check of an expression is an argument; a tick is a call of the callback that the
-- library was given, and a queue that refuses is only logged.
use saral.Base.{ℕ, Bool, true, false, String, if◌then◌else◌}
use saral.Jobs.{recent, Job}
use saral.Queue.Memory.{MemoryQueue, enqueue}
use saral.Queue.Trace.{enqueued_or}

pub record CronScheduler : Type 0 where
  pub expression : String
  pub has_task : Bool

-- The flag is a throw.
unfoldable pub check_expression : (validate : String → Bool) → CronScheduler → Bool
check_expression validate s = if validate s.expression then false else true

unfoldable pub start_cron : (validate : String → Bool) → CronScheduler → CronScheduler × Bool
unfolding check_expression
start_cron validate s =
    if check_expression validate s then (s, true) else (record s { has_task = true }, false)

unfoldable pub tick : (now : ℕ) → CronScheduler → MemoryQueue → MemoryQueue
tick now s q =
    if s.has_task then enqueued_or q (enqueue now (Job.dispatch_due_syncs recent) 0 q) else q

unfoldable pub stop_cron : CronScheduler → CronScheduler
stop_cron s = record s { has_task = false }
