-- ===== src/Cloud/Tally.antt =====
-- What commands/deployEc2.ts asks of EC2, and its steps that launch and tag nothing.
use saral.Base.{
  ℕ, ◌+◌, ◌≡◌, ◌∙◌, inl, inr, Bool, true, false, Option, some, List, [], ◌∷◌, ◌++◌, String,
}
use saral.Schedule.Bridge.{or_nothing}
use saral.Asset.Storage.{Attempt, got, threw, Attempt-cases}
use saral.Config.Env.{DriverSettings}
use saral.Cloud.Sdk.{Command, Reply, Sdk}
use saral.Cloud.Action.{Action, return_it, try_catch, ◌>>=◌, present}
use saral.Cloud.Logic.{Leads, Leads-try_catch, Leads-weaken, Leads-bind, Leads-present}
use saral.Cloud.Deploy.{
  Operator, ensure_instance_profile, create_security_group, group_or_create, ensure_security_group,
  ensure_lifecycle_rule, keep_key, ensure_key_pair, find_ami, wait_for_profile,
}

-- An answer to DescribeInstances.
pub record Check : Type 0 where
  pub name : String
  pub states : List String
  pub found : List (Option String)

-- What was asked of EC2 and answered: how many instances RunInstances was to launch at most, the ids
-- that it replied, the resources and names of the tags, and the answers to DescribeInstances.
pub record Log : Type 0 where
  pub launched : ℕ
  pub ids : List (Option String)
  pub tagged : List (String × String)
  pub checks : List Check

abbrev pub no_log : Log
no_log = record { launched = 0; ids = []; tagged = []; checks = [] }

abbrev pub noted : Command → Attempt Reply String → Log → Log
noted (Command.run_instances l) (got r) log = record log {
  launched = log.launched + l.max_count;
  ids = log.ids ++ (r.value ∷ []);
}
noted (Command.run_instances l) (threw e) log = record log { launched = log.launched + l.max_count }
noted (Command.create_tags id n) r log = record log { tagged = log.tagged ++ ((id, n) ∷ []) }
noted (Command.describe_instances n states) (got r) log = record log {
  checks = log.checks ++ (record { name = n; states = states; found = r.values } ∷ []);
}
noted (Command.describe_instances n states) (threw e) log = log
noted c r log = log

-- A world that also keeps the log.
abbrev pub Logged : Type 0 → Type 0
Logged W = W × Log

abbrev pub logging : {W : Type 0} → Sdk W → Sdk (Logged W)
logging send c (w, log) = let (w', r) = send c w in ((w', noted c r log), r)

-- What is done beside AWS leaves the log.
abbrev pub beside : {W A : Type 0} → Action W A → Action (Logged W) A
beside a (w, k) = let (w', r) = a w in ((w', k), r)

abbrev pub lifted : {W : Type 0} → Operator W → Operator (Logged W)
lifted op = record {
  text_lt = op.text_lt;
  my_ip = beside op.my_ip;
  write_key = λ k. beside (op.write_key k);
  pause = λ ms v. (op.pause ms v.0, v.1);
  user_data = op.user_data;
}

module _ {W : Type 0} (send : Sdk W) (op : Operator W) (env : DriverSettings) (log : Log) where
  -- The log is as it was.
  abbrev pub Still : Logged W → Type 0
  Still v = v.1 ≡ log

  pub record Calm {A : Type 0} (a : Action (Logged W) A) : Type 0 where
    pub holds : Leads Still a (λ x v. Still v) Still

  pub command-Calm :
      (c : Command)
      → ((r : Attempt Reply String) (l : Log) → noted c r l ≡ l)
      → Calm (logging send c)
  command-Calm c unnoted = record { holds = leads }
    where
      leads : Leads Still (logging send c) (λ x v. Still v) Still
      leads (w, l) still =
          let kept : noted c (send c w).1 l ≡ log = unnoted (send c w).1 l ∙ still in
          elim (Attempt-cases (send c w).1) [
            | inl (e, failed) ↦ rw failed (rw failed at kept)
            | inr (r, ok) ↦ rw ok (rw ok at kept)
          ]

  pub beside-Calm : {A : Type 0} (a : Action W A) → Calm (beside a)
  beside-Calm a = record { holds = leads }
    where
      leads : Leads Still (beside a) (λ x v. Still v) Still
      leads (w, k) still = elim (Attempt-cases (a w).1) [
        | inl (e, failed) ↦ rw failed still
        | inr (r, ok) ↦ rw ok still
      ]

  return-Calm : {A : Type 0} (x : A) → Calm (return_it x)
  return-Calm x = record { holds = λ v still. still }

  pub present-Calm : (e : String) (o : Option String) → Calm (present e o)
  present-Calm e o = record {
    holds =
        Leads-weaken Still Still Still (λ s v. Still v × (o ≡ some s)) (λ s v. Still v)
          (present e o) (λ x v q. q.0) (λ v q. q) (Leads-present Still e o);
  }

  bind-Calm :
      {A B : Type 0} (a : Action (Logged W) A) (k : A → Action (Logged W) B)
      → Calm a
      → ((x : A) → Calm (k x))
      → Calm (a >>= k)
  bind-Calm a k first rest = record {
    holds =
        Leads-bind Still Still (λ x v. Still v) (λ x v. Still v) a k first.holds
          (λ x. (rest x).holds);
  }

  catch-Calm :
      {A : Type 0} (a : Action (Logged W) A) (h : String → Action (Logged W) A)
      → Calm a
      → ((e : String) → Calm (h e))
      → Calm (try_catch a h)
  catch-Calm a h body handler = record {
    holds =
        Leads-try_catch Still Still Still (λ x v. Still v) a h body.holds (λ e. (handler e).holds);
  }

  ruleset calm = (command-Calm, beside-Calm, return-Calm, present-Calm, bind-Calm, catch-Calm)

  pub profile-Calm :
      (account_id : String)
      → Calm (ensure_instance_profile (logging send) (lifted op) env account_id)
  unfolding ensure_instance_profile
  profile-Calm account_id = search calm depth 14

  create_group-Calm :
      (vpc_id my_ip : String)
      → Calm (create_security_group (logging send) (lifted op) env vpc_id my_ip)
  unfolding create_security_group
  create_group-Calm vpc_id my_ip = search calm depth 14

  group_or_create-Calm :
      (vpc_id my_ip : String) (b : Bool) (found : Option String)
      → Calm (group_or_create (logging send) (lifted op) env vpc_id my_ip b found)
  group_or_create-Calm vpc_id my_ip true found = return-Calm _
  group_or_create-Calm vpc_id my_ip false found = create_group-Calm vpc_id my_ip

  pub group-Calm :
      (vpc_id my_ip : String)
      → Calm (ensure_security_group (logging send) (lifted op) env vpc_id my_ip)
  unfolding ensure_security_group
  group-Calm vpc_id my_ip = search (calm, group_or_create-Calm) depth 8

  keep_key-Calm :
      (b : Bool) (material : Option String)
      → Calm (keep_key (logging send) (lifted op) env b material)
  keep_key-Calm true material = beside-Calm (op.write_key (or_nothing material))
  keep_key-Calm false material = return-Calm tt

  pub key_pair-Calm : Calm (ensure_key_pair (logging send) (lifted op) env)
  unfolding ensure_key_pair
  key_pair-Calm = search (calm, keep_key-Calm) depth 8

  pub ami-Calm : Calm (find_ami (logging send) (lifted op) env)
  unfolding find_ami
  ami-Calm = search calm depth 8

  pub lifecycle-Calm : (b : String) → Calm (ensure_lifecycle_rule (logging send) (lifted op) env b)
  unfolding ensure_lifecycle_rule
  lifecycle-Calm b = search calm depth 8

  pub wait-Calm : Calm (wait_for_profile (logging send) (lifted op) env)
  wait-Calm = record { holds = λ v still. still }
