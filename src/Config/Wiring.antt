-- ===== src/Config/Wiring.antt =====
-- What src/lib/env/index.ts promises to src/adapters/index.ts: no driver is constructed without the
-- settings that it needs.
use saral.Base.{
  ℕ, ◌≡◌, refl, true, Option, none, some, List, [], ◌∷◌, String, arith, Bool-cases, Option-cases,
  inl, inr, if◌then◌else◌,
}
use saral.Meta.Schema.{◌>>=◌}
use saral.Meta.Client.Paginate.{truthy}
use saral.Schedule.Cron.{to_event_bridge_expression}
use saral.Config.Env.{
  Driver, local, aws, DriverSettings, Env, EnvCoercions, ServiceSettings, MetaSettings,
  SyncSettings,
}
use saral.Config.Loading.{
  Variables, service_settings, meta_settings, sync_settings, driver_settings, is_refined, load,
}
use saral.Config.Adapters.{
  QueueDriver, sqs, memory, StorageDriver, s3, disk, SchedulerDriver, event_bridge, node_cron,
  Instances, no_instances, queue_of, storage_of, get_queue, get_storage, event_bridge_of,
  new_scheduler, get_scheduler, close_adapters,
}

load-is_refined :
    (to : EnvCoercions) (env : Variables) (e : Env)
    → load to env ≡ some e
    → is_refined e.drivers ≡ true
unfolding load
load-is_refined to env e h =
    refined_of (service_settings to env) (meta_settings to env) (sync_settings to env)
      (driver_settings to env) h
  where
    refined_of :
        (s : Option ServiceSettings) (m : Option MetaSettings) (y : Option SyncSettings)
        (d : Option DriverSettings)
        → (s >>= λ service. m >>= λ meta. y >>= λ sync. d >>= λ drivers.
            if is_refined drivers
            then some (record { service = service; meta = meta; sync = sync; drivers = drivers })
            else none)
          ≡ some e
        → is_refined e.drivers ≡ true
    refined_of s m y d g = ground arith

-- The settings that a driver was constructed with are there, and not empty.
abbrev pub IsQueueReady : QueueDriver → Type 0
IsQueueReady (sqs url region wait) = truthy url ≡ true
IsQueueReady (memory timeout max_count) = Unit

abbrev pub IsStorageReady : StorageDriver → Type 0
IsStorageReady (s3 bucket region) = truthy bucket ≡ true
IsStorageReady (disk directory) = Unit

abbrev pub IsSchedulerReady : SchedulerDriver → Type 0
IsSchedulerReady (event_bridge name expression url role region) =
    (truthy url ≡ true) × (truthy role ≡ true)
IsSchedulerReady (node_cron queue expression) = Unit

-- A property of the instance that is memoised, if there is one.
abbrev pub Held : {A : Type 0} → (A → Type 0) → Option (ℕ × A) → Type 0
Held P none = Unit
Held P (some (n, a)) = P a

pub record IsReady (i : Instances) : Type 0 where
  pub queue : Held IsQueueReady i.queue
  pub storage : Held IsStorageReady i.storage
  pub scheduler : Held IsSchedulerReady i.scheduler

-- The calls that the rest of the program makes.
pub data Call : Type 0 where
  queue storage scheduler close : Call

unfoldable pub perform :
    (split : String → List String) → DriverSettings → Call → Instances → Instances
perform split env queue i = (get_queue env i).0
perform split env storage i = (get_storage env i).0
perform split env scheduler i = (get_scheduler split env i).0
perform split env close i = close_adapters i

unfoldable pub run :
    (split : String → List String) → DriverSettings → List Call → Instances → Instances
run split env [] i = i
run split env (c ∷ cs) i = run split env cs (perform split env c i)

module _ (split : String → List String) (env : DriverSettings)
    (refined : is_refined env ≡ true) where
  queue_of-IsQueueReady : (d : Driver) → env.queue_driver ≡ d → IsQueueReady (queue_of env d)
  unfolding queue_of is_refined
  queue_of-IsQueueReady local e = tt
  queue_of-IsQueueReady aws e = ground arith

  storage_of-IsStorageReady :
      (d : Driver) → env.storage_driver ≡ d → IsStorageReady (storage_of env d)
  unfolding storage_of is_refined
  storage_of-IsStorageReady local e = tt
  storage_of-IsStorageReady aws e = ground arith

  scheduled_on_sqs : env.scheduler_driver ≡ aws → truthy env.sqs_queue_url ≡ true
  unfolding is_refined
  scheduled_on_sqs e = ground arith

  get_queue-IsReady : (i : Instances) → IsReady i → IsReady (get_queue env i).0
  unfolding get_queue
  get_queue-IsReady i r = elim (Option-cases i.queue) [
    | inl first ↦
        rw (first, get_queue)
          (record {
            queue = queue_of-IsQueueReady env.queue_driver refl;
            storage = r.storage;
            scheduler = r.scheduler;
          })
    | inr (held, known) ↦ rw (known, get_queue) r
  ]

  get_storage-IsReady : (i : Instances) → IsReady i → IsReady (get_storage env i).0
  unfolding get_storage
  get_storage-IsReady i r = elim (Option-cases i.storage) [
    | inl first ↦
        rw (first, get_storage)
          (record {
            queue = r.queue;
            storage = storage_of-IsStorageReady env.storage_driver refl;
            scheduler = r.scheduler;
          })
    | inr (held, known) ↦ rw (known, get_storage) r
  ]

  event_bridge_of-IsReady :
      (i : Instances)
      → env.scheduler_driver ≡ aws
      → truthy env.schedule_role_arn ≡ true
      → IsReady i
      → IsReady (event_bridge_of split env i).0
  unfolding event_bridge_of
  event_bridge_of-IsReady i on_aws role r =
      elim (Option-cases (to_event_bridge_expression (split env.recent_sync_cron))) [
        | inl refused ↦ rw (refused, event_bridge_of) r
        | inr (expression, fine) ↦
            rw (fine, event_bridge_of)
              (record {
                queue = r.queue;
                storage = r.storage;
                scheduler = (scheduled_on_sqs on_aws, role);
              })
      ]

  new_scheduler-IsReady :
      (d : Driver) (i : Instances)
      → env.scheduler_driver ≡ d
      → IsReady i
      → IsReady (new_scheduler split env d i).0
  unfolding new_scheduler
  new_scheduler-IsReady aws i e r = elim (Bool-cases (truthy env.schedule_role_arn)) [
    | inl role ↦ rw role (event_bridge_of-IsReady i e role r)
    | inr missing ↦ rw missing r
  ]
  new_scheduler-IsReady local i e r =
      let with_queue = get_queue-IsReady i r in
      record { queue = with_queue.queue; storage = with_queue.storage; scheduler = tt }

  get_scheduler-IsReady : (i : Instances) → IsReady i → IsReady (get_scheduler split env i).0
  unfolding get_scheduler
  get_scheduler-IsReady i r = elim (Option-cases i.scheduler) [
    | inl first ↦ rw (first, get_scheduler) (new_scheduler-IsReady env.scheduler_driver i refl r)
    | inr (held, known) ↦ rw (known, get_scheduler) r
  ]

  perform-IsReady : (c : Call) (i : Instances) → IsReady i → IsReady (perform split env c i)
  unfolding perform close_adapters
  perform-IsReady queue i r = get_queue-IsReady i r
  perform-IsReady storage i r = get_storage-IsReady i r
  perform-IsReady scheduler i r = get_scheduler-IsReady i r
  perform-IsReady close i r = record { queue = tt; storage = tt; scheduler = tt }

  run-IsReady : (cs : List Call) (i : Instances) → IsReady i → IsReady (run split env cs i)
  unfolding run
  run-IsReady [] i r = r
  run-IsReady (c ∷ cs) i r = run-IsReady cs (perform split env c i) (perform-IsReady c i r)

-- If the process starts, then whatever sequence of calls it makes of the drivers, from none of them
-- on, each driver that is there was constructed with the settings that it needs: the queue of SQS
-- with a URL, the storage of S3 with a bucket, and the scheduler of EventBridge with the URL of the
-- queue and a role; none of these is missing or empty.
pub load-IsReady :
    (to : EnvCoercions) (variables : Variables) (e : Env) (split : String → List String)
    (cs : List Call)
    → load to variables ≡ some e
    → IsReady (run split e.drivers cs no_instances)
load-IsReady to variables e split cs started =
    run-IsReady split e.drivers (load-is_refined to variables e started) cs no_instances
      (record { queue = tt; storage = tt; scheduler = tt })
