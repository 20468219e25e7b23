-- ===== src/Cloud/Lookups.antt =====
-- What commands/provisionAws.ts creates: just what its lookups did not find.
use saral.Base.{ℕ, ◌≡◌, Option, List, [], ◌∷◌, ◌++◌, String}
use saral.Config.Env.{DriverSettings}
use saral.Cloud.Sdk.{Command, Reply, Sdk}
use saral.Cloud.Action.{Action, try_catch, ◌>>=◌}
use saral.Cloud.Account.{Resource, bucket, queue, role, Trace, Traced, tracing, tracing_pause}
use saral.Cloud.Provision.{bucket_name, ensure_queue_url}
use saral.Cloud.Tracks.{
  Steps, bind-Steps, quiet-Steps, return-Steps, present-Steps, find_bucket-Steps, find_role-Steps,
  queue_url-Steps, queue_arn-Steps, schedule-Steps, wait-Steps,
}

module _ {W : Type 0} (send : Sdk W) (pause : ℕ → W → W) (split : String → List String)
    (env : DriverSettings) where
  quiet-then :
      {A B : Type 0} (rs rs2 : List Resource) (a : Action (Traced W) A)
      (k : A → Action (Traced W) B)
      → Steps send pause split env rs rs a
      → ((x : A) → Steps send pause split env rs rs2 (k x))
      → Steps send pause split env rs rs2 (a >>= k)
  quiet-then rs rs2 a k = bind-Steps send pause split env rs rs rs2 a k

  queue_url-then :
      {B : Type 0} (rs rs2 : List Resource) (n : String) (k : String → Action (Traced W) B)
      → ((x : String) → Steps send pause split env (rs ++ (queue n ∷ [])) rs2 (k x))
      → Steps send pause split env rs rs2
          (ensure_queue_url (tracing send) (tracing_pause pause) split env n >>= k)
  queue_url-then rs rs2 n k =
      bind-Steps send pause split env rs (rs ++ (queue n ∷ [])) rs2 _ k
        (queue_url-Steps send pause split env rs n)

  find_bucket-then :
      {B : Type 0} (rs rs2 : List Resource) (b : String) (l : Option String)
      (k : Reply → Action (Traced W) B)
      → ((x : Reply) → Steps send pause split env (rs ++ (bucket b ∷ [])) rs2 (k x))
      → Steps send pause split env rs rs2 (
          try_catch
            (tracing send (Command.head_bucket b))
            (λ e. tracing send (Command.create_bucket b l))
          >>= k)
  find_bucket-then rs rs2 b l k =
      bind-Steps send pause split env rs (rs ++ (bucket b ∷ [])) rs2 _ k
        (find_bucket-Steps send pause split env rs b l)

  find_role-then :
      {B : Type 0} (rs rs2 : List Resource) (n p : String) (k : Reply → Action (Traced W) B)
      → ((x : Reply) → Steps send pause split env (rs ++ (role n ∷ [])) rs2 (k x))
      → Steps send pause split env rs rs2 (
          try_catch
            (tracing send (Command.get_role n))
            (λ e. tracing send (Command.create_role n p))
          >>= k)
  find_role-then rs rs2 n p k =
      bind-Steps send pause split env rs (rs ++ (role n ∷ [])) rs2 _ k
        (find_role-Steps send pause split env rs n p)

  ruleset stepping = (
    quiet-then, queue_url-then, find_bucket-then, find_role-then, quiet-Steps, return-Steps,
    present-Steps, queue_arn-Steps, schedule-Steps, wait-Steps,
  )

  abbrev after_bucket : (account_id : String) → List Resource
  after_bucket account_id =
      bucket (bucket_name (tracing send) (tracing_pause pause) split env account_id) ∷ []

  abbrev queues_of : List Resource → List Resource
  queues_of rs =
      (rs ++ (queue "hashtag-pipeline-jobs-dlq" ∷ [])) ++ (queue "hashtag-pipeline-jobs" ∷ [])

  abbrev all_of : (account_id : String) → List Resource
  all_of account_id =
      queues_of (after_bucket account_id) ++ (role "hashtag-pipeline-scheduler-role" ∷ [])

-- One lookup for each resource: a bucket, the dead-letter queue, the queue and the role.
abbrev pub AllLookedUp : Trace → Type 0
AllLookedUp t =
    (b : String) × (t.looked
      ≡ bucket b
        ∷ queue "hashtag-pipeline-jobs-dlq"
        ∷ queue "hashtag-pipeline-jobs"
        ∷ role "hashtag-pipeline-scheduler-role"
        ∷ [])
