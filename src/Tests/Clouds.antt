-- ===== src/Tests/Clouds.antt =====
-- The scripts for an AWS account at concrete inputs (commands/provisionAws.ts).
use saral.Base.{
  ℕ, ◌+◌, length, take, map, keep, not, ltb, ◌≡◌, refl, Bool, true, false, ◌||◌, Option, none, some,
  List, [], ◌∷◌, ◌++◌, String, if◌then◌else◌,
}
use text.Mathlib.Text.{◌==◌ as str_eq}
use saral.Asset.Storage.{Attempt, got, threw}
use saral.Config.Env.{DriverSettings, aws}
use saral.Schedule.Cron.{to_event_bridge_expression}
use saral.Cloud.Sdk.{Command, Reply, Sdk}
use saral.Cloud.Account.{Resource, bucket, queue, role, no_trace, tracing, tracing_pause}
use saral.Cloud.Provision.{provision_for, provision}
use saral.Cloud.Teardown.{empty_bucket, empty_and_delete_bucket}
use saral.Cloud.Emptied.{has}
use saral.Cloud.Logic.{Ends}
use saral.Cloud.Deploy.{
  Operator, deploy, deploy_fresh, ensure_lifecycle_rule, ensure_instance_profile,
  ensure_security_group, ensure_key_pair, find_ami, launch, nth_part, newest_image,
}
use saral.Cloud.Tally.{no_log, logging, lifted}
use saral.Cloud.Launches.{Returned, Stopped, deploy_launches_once}

abbrev same_resource : Resource → Resource → Bool
same_resource (bucket m) (bucket n) = str_eq m n
same_resource (queue m) (queue n) = str_eq m n
same_resource (role m) (role n) = str_eq m n
same_resource _ _ = false

abbrev there : Resource → List Resource → Bool
there r [] = false
there r (x ∷ xs) = same_resource r x || there r xs

-- An account that keeps what it is asked to create, and never deletes.
abbrev added : Command → List Resource
added (Command.create_bucket b l) = bucket b ∷ []
added (Command.create_queue n v t) = queue n ∷ []
added (Command.create_role n p) = role n ∷ []
added c = []

abbrev wanted : Command → Option Resource
wanted (Command.head_bucket b) = some (bucket b)
wanted (Command.get_queue_url n) = some (queue n)
wanted (Command.get_role n) = some (role n)
wanted c = none

abbrev text_reply : Reply
text_reply = record { value = some "123"; values = []; images = []; is_truncated = false }

abbrev answer_to : Option Resource → List Resource → Attempt Reply String
answer_to none w = got text_reply
answer_to (some r) w = if there r w then got text_reply else threw "NotFound"

abbrev account : Sdk (List Resource)
account c w = (added c ++ w, answer_to (wanted c) w)

abbrev no_pause : ℕ → List Resource → List Resource
no_pause ms w = w

abbrev settings : DriverSettings
settings = record {
  queue_driver = aws;
  storage_driver = aws;
  scheduler_driver = aws;
  local_storage_dir = "storage";
  recent_sync_cron = "0 */3 * * *";
  aws_region = "eu-west-1";
  s3_bucket = none;
  sqs_queue_url = none;
  sqs_dlq_url = none;
  sqs_visibility_timeout = 300;
  sqs_wait_time_seconds = 20;
  schedule_name = "sync";
  schedule_role_arn = none;
}

abbrev cron_fields : String → List String
cron_fields s = "0" ∷ "*/3" ∷ "*" ∷ "*" ∷ "*" ∷ []

abbrev as_text : List String → String
as_text fields = "cron(0 */3 * * ? *)"

-- The first run asks for a bucket, two queues and a role; the second for none of them.
four_at_first :
    let (v, r) =
      provision
        (tracing account)
        (tracing_pause no_pause)
        cron_fields
        settings
        as_text
        ([], no_trace) in
    let (v2, r2) =
      provision
        (tracing account)
        (tracing_pause no_pause)
        cron_fields
        settings
        as_text
        (v.0, no_trace) in
    (length v.1.created ≡ 4) × (length v2.1.created ≡ 0)
unfolding provision provision_for to_event_bridge_expression
four_at_first = (refl, refl)

abbrev page : List String → Bool → Reply
page ks more = record { value = none; values = map some ks; images = []; is_truncated = more }

-- An operator's machine.
abbrev operator : Operator ℕ
operator = record {
  text_lt = λ s t. false;
  my_ip = λ w. (w, got "10.0.0.1");
  write_key = λ k w. (w, got tt);
  pause = λ ms w. w;
  user_data = "#!/bin/bash";
}

-- An account that has the network and the image, and no worker.
abbrev fleet : Sdk ℕ
fleet (Command.describe_instances n states) w = (w, got (page [] false))
fleet Command.describe_images w = (
  w,
  got (record (page [] false) {
    images = record { image_id = some "ami-1"; creation_date = some "2026" } ∷ [];
  }),
)
fleet Command.describe_vpcs w = (w, got (page ("vpc-1" ∷ []) false))
fleet (Command.describe_subnets v) w = (w, got (page ("subnet-1" ∷ []) false))
fleet (Command.describe_security_groups n v) w = (w, got (page ("sg-1" ∷ []) false))
fleet (Command.run_instances l) w = (w + 1, got (record (page [] false) { value = some "i-1" }))
fleet c w = (w, got (page [] false))

abbrev deployable : DriverSettings
deployable = record settings {
  s3_bucket = some "media";
  sqs_queue_url = some "https://sqs/jobs";
  schedule_role_arn = some "arn:aws:iam::123:role/scheduler";
}

deploy_launches_once_example :
    Ends
      (λ x v. Returned v.1)
      (λ v. Stopped v.1)
      (deploy (logging fleet) (lifted operator) deployable (0, no_log))
deploy_launches_once_example = deploy_launches_once fleet operator deployable 0

-- That run launches one worker and tags it.
one_worker :
    let (v, r) = deploy (logging fleet) (lifted operator) deployable (0, no_log) in
    (r ≡ got tt) × (v.1.launched ≡ 1) × (v.1.tagged ≡ ("i-1", "hashtag-pipeline-worker") ∷ [])
unfolding deploy deploy_fresh ensure_lifecycle_rule ensure_instance_profile ensure_security_group
    ensure_key_pair find_ami launch nth_part newest_image
one_worker = (refl, refl, refl)

-- Every bucket, as the names of its files, and whether it is gone.
abbrev Stock : Type 0
Stock = String → List String × Bool

abbrev key_of : String → String
key_of name = String.◌∷◌ "m" name

abbrev objects : Stock → String → List String
objects w b = map key_of (w b).0

abbrev gone : Stock → String → Bool
gone w b = (w b).1

abbrev put_at : String → List String × Bool → Stock → Stock
put_at b v w c = if str_eq c b then v else w c

abbrev survives : List String → String → Bool
survives ks name = not (has (key_of name) ks)

-- It lists two at a time, and deletes no bucket that has objects.
abbrev storage : Sdk Stock
storage (Command.list_objects b m) w =
    (w, got (page (take 2 (objects w b)) (ltb 2 (length (objects w b)))))
storage (Command.delete_objects b ks) w =
    (put_at b (keep (survives ks) (w b).0, (w b).1) w, got (page [] false))
storage (Command.delete_bucket b) w = elim (w b).0 [
  | [] ↦ (put_at b ([], true) w, got (page [] false))
  | ◌∷◌ k ks ↦ (w, threw "BucketNotEmpty")
]
storage c w = (w, threw "AccessDenied")

abbrev two_buckets : Stock
two_buckets b = if str_eq b "media" then ("a" ∷ "b" ∷ "c" ∷ [], false) else ("d" ∷ [], false)

-- The bucket is gone, and the other is as it was.
one_bucket_gone :
    let (w, r) = empty_and_delete_bucket storage 4 "media" two_buckets in
    (r ≡ got tt) × (w "media" ≡ ([], true)) × (w "other" ≡ ("d" ∷ [], false))
unfolding empty_and_delete_bucket empty_bucket
one_bucket_gone = (refl, refl, refl)
