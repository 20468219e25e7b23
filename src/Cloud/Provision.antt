-- ===== src/Cloud/Provision.antt =====
-- commands/provisionAws.ts. `split` is the split of a cron expression at white space, `concat`
-- joins texts, and `pause` is setTimeout.
use saral.Base.{ℕ, Bool, true, false, Option, none, some, List, [], ◌∷◌, String, if◌then◌else◌}
use Prim.Native.String
use text.Mathlib.Text.{◌==◌ as str_eq}
use saral.Meta.Client.Paginate.{truthy}
use saral.Asset.Storage.{Attempt, got, threw}
use saral.Config.Env.{DriverSettings}
use saral.Schedule.Cron.{to_event_bridge_expression}
use saral.Schedule.Bridge.{
  BridgeClients, Sent, done, conflict, failed, or_nothing, ensure_schedules,
}
use saral.Cloud.Sdk.{Command, Reply, Sdk}
use saral.Cloud.Action.{Action, return_it, throw_it, try_catch, ◌>>=◌, present}

abbrev pub queue_name : String
queue_name = "hashtag-pipeline-jobs"

abbrev pub dlq_name : String
dlq_name = "hashtag-pipeline-jobs-dlq"

abbrev pub scheduler_role_name : String
scheduler_role_name = "hashtag-pipeline-scheduler-role"

-- 14 days.
abbrev pub retention_period : ℕ
retention_period = 1209600

abbrev pub max_receive_count : ℕ
max_receive_count = 3

-- What is printed for the .env file.
pub record Provisioned : Type 0 where
  pub bucket : String
  pub queue_url : String
  pub dlq_url : String
  pub role_arn : String

abbrev pub printed : (bucket : String) → String × String → (role_arn : String) → Provisioned
printed bucket (queue_url, dlq_url) role_arn = record {
  bucket = bucket;
  queue_url = queue_url;
  dlq_url = dlq_url;
  role_arn = role_arn;
}

abbrev pub send_message_policy : (target_queue_arn : String) → Command
send_message_policy target_queue_arn =
    Command.put_role_policy scheduler_role_name "send-message-to-jobs-queue"
      (record { actions = "sqs:SendMessage" ∷ []; resource = target_queue_arn } ∷ [])

module _ {W : Type 0} (send : Sdk W) (pause : ℕ → W → W) (split : String → List String)
    (env : DriverSettings) where
  unfoldable pub resolve_account_id : Action W String
  resolve_account_id = do
    identity ← send Command.get_caller_identity
    present "could not resolve AWS account ID" identity.value

  -- `env.S3_BUCKET || …`.
  abbrev pub bucket_name : (account_id : String) → String
  bucket_name account_id =
      if truthy env.s3_bucket
      then or_nothing env.s3_bucket
      else String.◌++◌ "hashtag-media-" account_id

  -- us-east-1 takes no location.
  abbrev pub location : Option String
  location = if str_eq env.aws_region "us-east-1" then none else some env.aws_region

  unfoldable pub ensure_bucket : (account_id : String) → Action W String
  ensure_bucket account_id =
      let bucket = bucket_name account_id in
      do
        found ←
            try_catch (send (Command.head_bucket bucket))
              (λ e. send (Command.create_bucket bucket location))
        blocked ← send (Command.put_public_access_block bucket)
        encrypted ← send (Command.put_bucket_encryption bucket)
        return_it bucket

  unfoldable pub create_queue : (name : String) → Action W String
  create_queue name = do
    created ← send (Command.create_queue name env.sqs_visibility_timeout retention_period)
    present "failed to create queue" created.value

  -- The `catch` that falls through to the creation, as a reply without a URL does.
  abbrev pub no_url : String → Action W Reply
  no_url e = return_it (record { value = none; values = []; images = []; is_truncated = false })

  abbrev pub url_or_create : (name : String) → Bool → Option String → Action W String
  url_or_create name true url = return_it (or_nothing url)
  url_or_create name false url = create_queue name

  unfoldable pub ensure_queue_url : (name : String) → Action W String
  unfolding create_queue
  ensure_queue_url name = do
    existing ← try_catch (send (Command.get_queue_url name)) no_url
    url_or_create name (truthy existing.value) existing.value

  unfoldable pub queue_arn : (url : String) → Action W String
  queue_arn url = do
    attributes ← send (Command.get_queue_arn url)
    present "could not resolve ARN" attributes.value

  unfoldable pub ensure_queues : Action W (String × String)
  unfolding ensure_queue_url queue_arn
  ensure_queues = do
    dlq_url ← ensure_queue_url dlq_name
    dlq_arn ← queue_arn dlq_url
    queue_url ← ensure_queue_url queue_name
    set ← send (Command.set_redrive queue_url dlq_arn max_receive_count env.sqs_visibility_timeout)
    return_it (queue_url, dlq_url)

  unfoldable pub ensure_scheduler_role : (target_queue_arn : String) → Action W String
  ensure_scheduler_role target_queue_arn = do
    role ←
        try_catch (send (Command.get_role scheduler_role_name))
          (λ e. send (Command.create_role scheduler_role_name "scheduler.amazonaws.com"))
    role_arn ← present "could not resolve scheduler role ARN" role.value
    put ← send (send_message_policy target_queue_arn)
    return_it role_arn

  -- The clients of EventBridgeScheduler.
  abbrev pub sent : W × Attempt Reply String → W × Sent
  sent (w, got r) = (w, done)
  sent (w, threw e) = (w, if str_eq e "ConflictException" then conflict else failed e)

  abbrev pub arn_of : W × Attempt Reply String → W × Option (Option String)
  arn_of (w, got r) = (w, some r.value)
  arn_of (w, threw e) = (w, none)

  abbrev pub bridge_clients : BridgeClients W
  bridge_clients = record {
    get_queue_arn = λ url w. arn_of (send (Command.get_queue_arn url) w);
    create_schedule = λ i w. sent (send (Command.create_schedule i) w);
    update_schedule = λ i w. sent (send (Command.update_schedule i) w);
  }

  abbrev pub ended : W × Option String → W × Attempt Unit String
  ended (w, none) = (w, got tt)
  ended (w, some e) = (w, threw e)

  -- The fields of the expression are those between `cron(` and `)`.
  abbrev pub expression : (text : List String → String) → Option (List String) → Action W String
  expression text none = throw_it "invalid cron expression"
  expression text (some fields) = return_it (text fields)

  unfoldable pub schedule_syncs :
      (text : List String → String) → (queue_url role_arn : String) → Action W Unit
  unfolding ensure_schedules
  schedule_syncs text queue_url role_arn = do
    schedule_expression ← expression text (to_event_bridge_expression (split env.recent_sync_cron))
    λ w. ended (
        ensure_schedules bridge_clients
          (record {
            schedule_name = env.schedule_name;
            schedule_expression = schedule_expression;
            queue_url = queue_url;
            role_arn = role_arn;
          })
          w)

  -- For the role to propagate.
  abbrev pub wait_for_role : Action W Unit
  wait_for_role w = (pause 10000 w, got tt)

  unfoldable pub provision_for : (text : List String → String) → String → Action W Provisioned
  unfolding ensure_bucket ensure_queues ensure_scheduler_role schedule_syncs
  provision_for text account_id = do
    bucket ← ensure_bucket account_id
    urls ← ensure_queues
    main_arn ← queue_arn urls.0
    role_arn ← ensure_scheduler_role main_arn
    waited ← wait_for_role
    scheduled ← schedule_syncs text urls.0 role_arn
    return_it (printed bucket urls role_arn)

  unfoldable pub provision : (text : List String → String) → Action W Provisioned
  unfolding resolve_account_id provision_for
  provision text = resolve_account_id >>= provision_for text
