-- ===== src/Config/Adapters.antt =====
-- The memoised drivers of src/adapters/index.ts. An instance is told by the number under which it
-- was constructed.
use saral.Base.{ℕ, ◌+◌, ◌*◌, Option, none, some, List, String, if◌then◌else◌}
use saral.Meta.Client.Paginate.{truthy}
use saral.Schedule.Cron.{to_event_bridge_expression}
use saral.Config.Env.{Driver, local, aws, DriverSettings}

-- The arguments of the constructors. `env.X!` passes an `undefined` on.
pub data QueueDriver : Type 0 where
  sqs : (url : Option String) (region : String) (wait_time_seconds : ℕ) → QueueDriver
  memory : (visibility_timeout_ms max_receive_count : ℕ) → QueueDriver

pub data StorageDriver : Type 0 where
  s3 : (bucket : Option String) (region : String) → StorageDriver
  disk : (directory : String) → StorageDriver

pub data SchedulerDriver : Type 0 where
  event_bridge :
      (name : String) (expression : List String) (queue_url role_arn : Option String)
      (region : String)
      → SchedulerDriver
  node_cron : (queue : ℕ) (expression : String) → SchedulerDriver

pub record Instances : Type 0 where
  pub queue : Option (ℕ × QueueDriver)
  pub storage : Option (ℕ × StorageDriver)
  pub scheduler : Option (ℕ × SchedulerDriver)
  pub constructed : ℕ

abbrev pub no_instances : Instances
no_instances = record { queue = none; storage = none; scheduler = none; constructed = 0 }

unfoldable pub queue_of : DriverSettings → Driver → QueueDriver
queue_of env aws = sqs env.sqs_queue_url env.aws_region env.sqs_wait_time_seconds
queue_of env local = memory (env.sqs_visibility_timeout * 1000) 3

unfoldable pub storage_of : DriverSettings → Driver → StorageDriver
storage_of env aws = s3 env.s3_bucket env.aws_region
storage_of env local = disk env.local_storage_dir

unfoldable pub get_queue : DriverSettings → Instances → Instances × ℕ × QueueDriver
unfolding queue_of
get_queue env i = elim i.queue [
  | some (n, q) ↦ (i, n, q)
  | none ↦
      let q = queue_of env env.queue_driver in
      (
        record i { queue = some (i.constructed, q); constructed = i.constructed + 1 },
        i.constructed,
        q,
      )
]

unfoldable pub get_storage : DriverSettings → Instances → Instances × ℕ × StorageDriver
unfolding storage_of
get_storage env i = elim i.storage [
  | some (n, s) ↦ (i, n, s)
  | none ↦
      let s = storage_of env env.storage_driver in
      (
        record i { storage = some (i.constructed, s); constructed = i.constructed + 1 },
        i.constructed,
        s,
      )
]

-- What constructing a scheduler gives: `none` is a throw.
abbrev pub keep_scheduler : Instances → SchedulerDriver → Instances × Option (ℕ × SchedulerDriver)
keep_scheduler i s = (
  record i { scheduler = some (i.constructed, s); constructed = i.constructed + 1 },
  some (i.constructed, s),
)

-- `split` is `unixCron.trim().split(/\s+/)`.
unfoldable pub event_bridge_of :
    (split : String → List String)
    → DriverSettings
    → Instances
    → Instances × Option (ℕ × SchedulerDriver)
event_bridge_of split env i = elim (to_event_bridge_expression (split env.recent_sync_cron)) [
  | none ↦ (i, none)
  | some expression ↦ keep_scheduler i (
      event_bridge env.schedule_name expression env.sqs_queue_url env.schedule_role_arn
        env.aws_region)
]

unfoldable pub new_scheduler :
    (split : String → List String)
    → DriverSettings
    → Driver
    → Instances
    → Instances × Option (ℕ × SchedulerDriver)
unfolding event_bridge_of get_queue
new_scheduler split env aws i =
    if truthy env.schedule_role_arn then event_bridge_of split env i else (i, none)
new_scheduler split env local i =
    let (i', n, q) = get_queue env i in keep_scheduler i' (node_cron n env.recent_sync_cron)

unfoldable pub get_scheduler :
    (split : String → List String)
    → DriverSettings
    → Instances
    → Instances × Option (ℕ × SchedulerDriver)
unfolding new_scheduler
get_scheduler split env i = elim i.scheduler [
  | some s ↦ (i, some s)
  | none ↦ new_scheduler split env env.scheduler_driver i
]

-- What `stop` and `close` throw is caught.
unfoldable pub close_adapters : Instances → Instances
close_adapters i = record i { queue = none; storage = none; scheduler = none }
