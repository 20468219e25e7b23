-- ===== src/Schedule/Bridge.antt =====
-- The class EventBridgeScheduler of src/adapters/aws/EventBridgeScheduler.ts, over the two clients
-- of the AWS SDK that it uses, and NodeCronScheduler of src/adapters/local/NodeCronScheduler.ts,
-- over node-cron. Each is an argument, as functions on a world `W`.
use saral.Base.{Bool, true, false, Option, none, some, String, if◌then◌else◌}
use saral.Jobs.{recent, Job}
use saral.Meta.Client.Paginate.{truthy}

pub record BridgeOptions : Type 0 where
  pub schedule_name : String
  pub schedule_expression : String
  pub queue_url : String
  pub role_arn : String

-- The input of CreateScheduleCommand and of UpdateScheduleCommand. `input` is the job that is
-- written as the target's text.
pub record ScheduleInput : Type 0 where
  pub name : String
  pub schedule_expression : String
  pub is_flexible : Bool
  pub target_arn : String
  pub role_arn : String
  pub input : Job
  pub is_enabled : Bool

-- How a command of the scheduler's client ends: ConflictException is told from other errors.
pub data Sent : Type 0 where
  done conflict : Sent
  failed : String → Sent

pub record BridgeClients (W : Type 0) : Type 0 where
  pub get_queue_arn : (queue_url : String) → W → W × Option (Option String)
  pub create_schedule : ScheduleInput → W → W × Sent
  pub update_schedule : ScheduleInput → W → W × Sent

-- `some` is a rejected promise.
abbrev pub Ended : Type 0
Ended = Option String

-- The shared input.
unfoldable pub schedule_input : BridgeOptions → (queue_arn : String) → ScheduleInput
schedule_input o queue_arn = record {
  name = o.schedule_name;
  schedule_expression = o.schedule_expression;
  is_flexible = false;
  target_arn = queue_arn;
  role_arn = o.role_arn;
  input = Job.dispatch_due_syncs recent;
  is_enabled = true;
}

abbrev pub or_nothing : Option String → String
or_nothing none = ""
or_nothing (some s) = s

module _ {W : Type 0} (clients : BridgeClients W) (o : BridgeOptions) where
  abbrev pub updated : W × Sent → W × Ended
  updated (w, done) = (w, none)
  updated (w, conflict) = (w, some "ConflictException")
  updated (w, failed e) = (w, some e)

  -- The `try` with its `catch`.
  abbrev pub created : ScheduleInput → W × Sent → W × Ended
  created input (w, done) = (w, none)
  created input (w, conflict) = updated (clients.update_schedule input w)
  created input (w, failed e) = (w, some e)

  unfoldable pub put_schedule : (queue_arn : String) → W → W × Ended
  unfolding schedule_input
  put_schedule queue_arn w =
      let input = schedule_input o queue_arn in created input (clients.create_schedule input w)

  abbrev pub resolved : W × Option (Option String) → W × Ended
  resolved (w, none) = (w, some "GetQueueAttributes failed")
  resolved (w, some arn) =
      if truthy arn then put_schedule (or_nothing arn) w else (w, some "could not resolve QueueArn")

  unfoldable pub ensure_schedules : W → W × Ended
  unfolding put_schedule
  ensure_schedules w = resolved (clients.get_queue_arn o.queue_url w)
