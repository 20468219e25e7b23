-- ===== src/Tests/Settings.antt =====
-- The configuration and the schedulers at concrete inputs (src/lib/env/index.ts,
-- src/adapters/index.ts, src/adapters/aws/EventBridgeScheduler.ts).
use saral.Base.{
  ◌≡◌, refl, true, none, some, Option, List, [], ◌∷◌, String, if◌then◌else◌, ◌⊎◌, inl, inr, arith,
  eq_iff, Option-cases,
}
use text.Mathlib.Text.{◌==◌ as str_eq}
use text.Mathlib.TextPositions.{eq_refl}
use saral.Config.Env.{EnvCoercions, Env, is_version}
use saral.Config.Loading.{
  Variables, load, service_settings, meta_settings, sync_settings, driver_settings, is_refined,
}
use saral.Config.Adapters.{no_instances}
use saral.Config.Wiring.{Call, IsReady, run, load-IsReady}
use saral.Schedule.Bridge.{
  Sent, BridgeOptions, BridgeClients, ScheduleInput, done, conflict, ensure_schedules,
}
use saral.Schedule.Ensured.{BridgeLaws, Outcome, ensure_schedules-sets}

abbrev coercions : EnvCoercions
coercions = record { to_integer = λ s. some 20; is_url = λ s. true }

-- Everything on AWS.
abbrev on_aws : Variables
on_aws name =
    if str_eq name "QUEUE_DRIVER"
    then some "aws"
    else if str_eq name "STORAGE_DRIVER"
    then some "aws"
    else if str_eq name "SCHEDULER_DRIVER"
    then some "aws"
    else if str_eq name "S3_BUCKET"
    then some "media"
    else if str_eq name "SQS_QUEUE_URL"
    then some "https://sqs/jobs"
    else if str_eq name "EVENTBRIDGE_SCHEDULE_ROLE_ARN"
    then some "arn:role"
    else if str_eq name "DATABASE_URL"
    then some "postgres://db"
    else if str_eq name "META_ACCESS_TOKEN"
    then some "token"
    else if str_eq name "META_IG_USER_ID"
    then some "178"
    else none

-- The same without the bucket.
abbrev without_bucket : Variables
without_bucket name = if str_eq name "S3_BUCKET" then none else on_aws name

refused_without_bucket : load coercions without_bucket ≡ none
unfolding load service_settings meta_settings sync_settings driver_settings is_refined is_version
refused_without_bucket = refl

loaded : (e : Env) × (load coercions on_aws ≡ some e)
unfolding load service_settings meta_settings sync_settings driver_settings is_refined is_version
loaded = (_, refl)

abbrev fields : String → List String
fields s = "0" ∷ "*/3" ∷ "*" ∷ "*" ∷ "*" ∷ []

load-IsReady_example :
    IsReady
      (run fields loaded.0.drivers (Call.scheduler ∷ Call.queue ∷ Call.storage ∷ []) no_instances)
load-IsReady_example =
    load-IsReady coercions on_aws loaded.0 fields (Call.scheduler ∷ Call.queue ∷ Call.storage ∷ [])
      loaded.1

-- A service with one slot for each name.
abbrev Schedules : Type 0
Schedules = String → Option ScheduleInput

abbrev set_at : ScheduleInput → Schedules → Schedules
set_at i w name = if str_eq name i.name then some i else w name

abbrev or_conflict : ScheduleInput → Schedules → Option ScheduleInput → Schedules × Sent
or_conflict i w none = (set_at i w, done)
or_conflict i w (some old) = (w, conflict)

abbrev service : BridgeClients Schedules
service = record {
  get_queue_arn = λ url w. (w, some (some "arn:jobs"));
  create_schedule = λ i w. or_conflict i w (w i.name);
  update_schedule = λ i w. (set_at i w, done);
}

abbrev look : Schedules → String → Option ScheduleInput
look w name = w name

set_only :
    (i : ScheduleInput) (name : String) (w : Schedules)
    → (look (set_at i w) name ≡ look w name) ⊎ ((name ≡ i.name) × (look (set_at i w) name ≡ some i))
set_only i name w = ground (arith, eq_iff name i.name)

promises : BridgeLaws service look
promises = record {
  arn_keeps = λ url name w. refl;
  create_done = λ i w h. elim (Option-cases (w i.name)) [
    | inl free ↦ rw (free, eq_refl i.name) refl
    | inr (old, taken) ↦ let no : conflict ≡ done = rw taken at h in cc
  ];
  create_only = λ i name w. elim (Option-cases (w i.name)) [
    | inl free ↦ rw free (set_only i name w)
    | inr (old, taken) ↦ rw taken (inl refl)
  ];
  update_done = λ i w h. rw (eq_refl i.name) refl;
  update_only = set_only;
}

abbrev bridge : BridgeOptions
bridge = record {
  schedule_name = "sync";
  schedule_expression = "cron(0 */3 * * ? *)";
  queue_url = "https://sqs/jobs";
  role_arn = "arn:role";
}

abbrev nothing_scheduled : Schedules
nothing_scheduled name = none

ensure_schedules-sets_example :
    Outcome service look bridge nothing_scheduled
      (ensure_schedules service bridge nothing_scheduled)
ensure_schedules-sets_example = ensure_schedules-sets service look promises bridge nothing_scheduled
