-- ===== src/Cloud/Teardown.antt =====
-- commands/teardownAws.ts. A loop that runs out of fuel throws.
use saral.Base.{ℕ, zero, suc, Bool, true, false, Option, List, [], ◌∷◌, String, if◌then◌else◌}
use saral.Meta.Client.Paginate.{truthy}
use saral.Schedule.Bridge.{or_nothing}
use saral.Config.Env.{DriverSettings}
use saral.Cloud.Sdk.{Command, Sdk}
use saral.Cloud.Action.{Action, return_it, throw_it, try_catch, ◌>>=◌}
use saral.Cloud.Provision.{queue_name, dlq_name, scheduler_role_name}

-- `.filter((v): v is string => Boolean(v))`.
abbrev pub present_ones : List (Option String) → List String
present_ones [] = []
present_ones (v ∷ vs) = if truthy v then or_nothing v ∷ present_ones vs else present_ones vs

abbrev pub live_states : List String
live_states = "pending" ∷ "running" ∷ "stopped" ∷ []

module _ {W : Type 0} (send : Sdk W) where
  -- After a page of the listing: it is deleted, and the loop goes on if there are more.
  abbrev pub after_listing :
      (next : Action W Unit)
      → (bucket : String) → (is_truncated : Bool) → (objects : List String) → Action W Unit
  after_listing next bucket is_truncated [] = return_it tt
  after_listing next bucket true (k ∷ ks) =
      send (Command.delete_objects bucket (k ∷ ks)) >>= λ d. next
  after_listing next bucket false (k ∷ ks) =
      send (Command.delete_objects bucket (k ∷ ks)) >>= λ d. return_it tt

  -- `for (;;)`.
  unfoldable pub empty_bucket : (fuel : ℕ) → (bucket : String) → Action W Unit
  empty_bucket zero bucket = throw_it "out of fuel"
  empty_bucket (suc fuel) bucket = do
    listed ← send (Command.list_objects bucket 1000)
    after_listing (empty_bucket fuel bucket) bucket listed.is_truncated (present_ones listed.values)

  unfoldable pub empty_and_delete_bucket : (fuel : ℕ) → (bucket : String) → Action W Unit
  unfolding empty_bucket
  empty_and_delete_bucket fuel bucket = do
    emptied ← empty_bucket fuel bucket
    deleted ← send (Command.delete_bucket bucket)
    return_it tt

  abbrev pub done_with : Command → Action W Unit
  done_with c = do sent ← send c; return_it tt

  -- A `catch` that only writes to the log.
  abbrev pub logged : String → Action W Unit
  logged e = return_it tt

  abbrev pub delete_url : Bool → (url : Option String) → Action W Unit
  delete_url true url = done_with (Command.delete_queue (or_nothing url))
  delete_url false url = return_it tt

  unfoldable pub delete_queue : (name : String) → Action W Unit
  delete_queue name =
      try_catch
        (send (Command.get_queue_url name) >>= λ found. delete_url (truthy found.value) found.value)
        logged

  abbrev pub terminate : (ids : List String) → Action W Unit
  terminate [] = return_it tt
  terminate (id ∷ ids) = done_with (Command.terminate_instances (id ∷ ids))

  unfoldable pub terminate_instances : Action W Unit
  terminate_instances =
      try_catch
        (send (Command.describe_instances "hashtag-pipeline-worker" live_states) >>= λ found.
          terminate (present_ones found.values))
        logged

  unfoldable pub delete_schedule : (name : String) → Action W Unit
  delete_schedule name = try_catch (done_with (Command.delete_schedule name)) logged

  -- The policy goes before the role, and its absence is no error.
  unfoldable pub delete_scheduler_role : Action W Unit
  delete_scheduler_role =
      try_catch
        (try_catch
            (done_with
              (Command.delete_role_policy scheduler_role_name "send-message-to-jobs-queue"))
            logged
          >>= λ u. done_with (Command.delete_role scheduler_role_name))
        logged

  abbrev pub delete_media : (fuel : ℕ) → Bool → (bucket : Option String) → Action W Unit
  unfolding empty_and_delete_bucket
  delete_media fuel true bucket = empty_and_delete_bucket fuel (or_nothing bucket)
  delete_media fuel false bucket = return_it tt

  -- Without `--yes` the process exits with 1.
  unfoldable pub teardown : (fuel : ℕ) → (confirmed : Bool) → DriverSettings → Action W Unit
  unfolding terminate_instances delete_schedule delete_queue delete_scheduler_role delete_media
  teardown fuel false env = throw_it "not confirmed"
  teardown fuel true env = do
    stopped ← terminate_instances
    unscheduled ← delete_schedule env.schedule_name
    drained ← delete_queue queue_name
    cleared ← delete_queue dlq_name
    unassumed ← delete_scheduler_role
    delete_media fuel (truthy env.s3_bucket) env.s3_bucket
