-- ===== src/Cloud/Launches.antt =====
-- How many instances a run of commands/deployEc2.ts launches, and what it tags.
use saral.Base.{
  ◌+◌, ◌≡◌, refl, ap, ◌⊎◌, inl, inr, Bool, true, false, Option, some, List, [], ◌∷◌, ◌++◌, String,
  ◌&&◌,
}
use mathlib.Core.Path.{subst}
use saral.Meta.Client.Paginate.{truthy}
use saral.Asset.Storage.{got, threw, Attempt-cases}
use saral.Config.Env.{DriverSettings}
use saral.Cloud.Sdk.{Command, Reply, Sdk, Launch}
use saral.Cloud.Action.{Action, return_it, ◌>>=◌, present}
use saral.Cloud.Logic.{Ends, Leads, Leads-weaken, Leads-bind, Leads-present}
use saral.Cloud.Deploy.{
  instance_tag, Operator, tag_instance, tag_launched, launch, deploy_fresh, unless_running,
  deploy_checked, deploy,
}
use saral.Cloud.Tally.{
  Check, Log, no_log, noted, Logged, logging, lifted, Still, Calm, command-Calm, beside-Calm,
  present-Calm, lifecycle-Calm, profile-Calm, group-Calm, key_pair-Calm, ami-Calm, wait-Calm,
}

-- The answer to the question which instances of the worker are up.
abbrev pub up : (found : List (Option String)) → Check
up found = record {
  name = "hashtag-pipeline-worker";
  states = "pending" ∷ "running" ∷ [];
  found = found;
}

-- A run that returned: one instance was up and nothing was launched or tagged; or none was, and one was
-- launched and is tagged by the id that RunInstances replied.
abbrev pub Returned : Log → Type 0
Returned log =
    ((log.launched ≡ 0)
      × (log.tagged ≡ [])
      × ((id : Option String) × (ids : List (Option String)) × (log.checks ≡ up (id ∷ ids) ∷ [])))
    ⊎ ((id : String) × (log.checks ≡ up [] ∷ [])
        × (log.launched ≡ 1)
        × (log.ids ≡ some id ∷ [])
        × (log.tagged ≡ (id, "hashtag-pipeline-worker") ∷ []))

-- A run that threw: nothing was launched or tagged; or none was up, and one launch was asked for.
abbrev pub Stopped : Log → Type 0
Stopped log =
    ((log.launched ≡ 0) × (log.tagged ≡ [])) ⊎ ((log.launched ≡ 1) × (log.checks ≡ up [] ∷ []))

module _ {W : Type 0} (send : Sdk W) (op : Operator W) (env : DriverSettings) where
  noted-Leads :
      (c : Command) (P : Logged W → Type 0) (R : Reply → Logged W → Type 0) (T : Logged W → Type 0)
      → ((w : W) (l : Log) (x : Reply) (w' : W) → P (w, l) → R x (w', noted c (got x) l))
      → ((w : W) (l : Log) (e : String) (w' : W) → P (w, l) → T (w', noted c (threw e) l))
      → Leads P (logging send c) R T
  noted-Leads c P R T f g (w, l) p = elim (Attempt-cases (send c w).1) [
    | inl (e, failed) ↦ rw failed (g w l e (send c w).0 p)
    | inr (x, ok) ↦ rw ok (f w l x (send c w).0 p)
  ]

  module _ (log : Log) where
    -- One instance was launched.
    abbrev after_launch : Option String → Log
    after_launch id = record log { launched = log.launched + 1; ids = log.ids ++ (id ∷ []) }

    abbrev Untagged : Option String → Logged W → Type 0
    Untagged id v = v.1 ≡ after_launch id

    -- It was tagged.
    abbrev Launched : Logged W → Type 0
    Launched v =
        (id : String) × (v.1 ≡ record (after_launch (some id)) {
          tagged = log.tagged ++ ((id, "hashtag-pipeline-worker") ∷ []);
        })

    -- At most one launch was asked for, and no tag without one.
    abbrev Thrown : Logged W → Type 0
    Thrown v = (v.1 ≡ log) ⊎ ((v.1.launched ≡ log.launched + 1) × (v.1.checks ≡ log.checks))

    tag-Leads :
        (id : String)
        → Leads
            (Untagged (some id))
            (tag_instance (logging send) (lifted op) env id)
            (λ x v. Launched v)
            Thrown
    tag-Leads id =
        Leads-bind (Untagged (some id)) Thrown (λ x v. Launched v) (λ x v. Launched v)
          (logging send (Command.create_tags id instance_tag)) (λ tagged. return_it tt)
          (noted-Leads (Command.create_tags id instance_tag) (Untagged (some id))
            (λ x v. Launched v) Thrown
            (λ w l x w' p. (
              id,
              ap {B = Log} (λ k. record k { tagged = k.tagged ++ ((id, instance_tag) ∷ []) }) p,
            ))
            (λ w l e w' p. inr (ap (λ k. k.launched) p, ap (λ k. k.checks) p)))
          (λ tagged v q. q)

    launch-Leads :
        (l : Launch)
        → l.max_count ≡ 1
        → Leads
            (Still send op env log)
            (launch (logging send) (lifted op) env l)
            (λ x v. Launched v)
            Thrown
    unfolding launch
    launch-Leads l one =
        Leads-bind (Still send op env log) Thrown (λ r v. Untagged r.value v) (λ x v. Launched v)
          (logging send (Command.run_instances l)) (tag_launched (logging send) (lifted op) env)
          (noted-Leads (Command.run_instances l) (Still send op env log) (λ r v. Untagged r.value v)
            Thrown (λ w k x w' p. rw (p, one) refl) (λ w k e w' p. rw (p, one) (inr (refl, refl))))
          (λ r.
            Leads-bind (Untagged r.value) Thrown (λ id v. Untagged (some id) v) (λ x v. Launched v)
              (present "RunInstances returned no instance" r.value)
              (tag_instance (logging send) (lifted op) env)
              (Leads-weaken (Untagged r.value) (Untagged r.value) Thrown
                (λ s v. Untagged r.value v × (r.value ≡ some s)) (λ id v. Untagged (some id) v)
                (present "RunInstances returned no instance" r.value)
                (λ s v (q, e). subst (λ o. Untagged o v) e q)
                (λ v q. inr (ap (λ k. k.launched) q, ap (λ k. k.checks) q))
                (Leads-present (Untagged r.value) "RunInstances returned no instance" r.value))
              tag-Leads)

    record Goes (a : Action (Logged W) Unit) : Type 0 where
      goes : Leads (Still send op env log) a (λ x v. Launched v) Thrown

    -- A step that leaves the log, before the launch.
    step-Goes :
        {A : Type 0} (a : Action (Logged W) A) (k : A → Action (Logged W) Unit)
        → Calm send op env log a
        → ((x : A) → Goes (k x))
        → Goes (a >>= k)
    step-Goes a k quiet rest = record {
      goes =
          Leads-bind (Still send op env log) Thrown (λ x v. Still send op env log v)
            (λ x v. Launched v) a k
            (Leads-weaken (Still send op env log) (Still send op env log) Thrown
              (λ x v. Still send op env log v) (λ x v. Still send op env log v) a (λ x v q. q)
              (λ v q. inl q) quiet.holds)
            (λ x. (rest x).goes);
    }

    launch-Goes : (l : Launch) → l.max_count ≡ 1 → Goes (launch (logging send) (lifted op) env l)
    launch-Goes l one = record { goes = launch-Leads l one }

    deploy_fresh-Goes : Goes (deploy_fresh (logging send) (lifted op) env)
    unfolding deploy_fresh
    deploy_fresh-Goes =
        search
          (
            step-Goes, launch-Goes, present-Calm, beside-Calm, command-Calm, lifecycle-Calm,
            profile-Calm, group-Calm, key_pair-Calm, ami-Calm, wait-Calm,
          )
          depth 30

  abbrev checked_log : List (Option String) → Log
  checked_log found = record no_log { checks = up found ∷ [] }

  fresh-Leads :
      Leads
        (Still send op env (checked_log []))
        (deploy_fresh (logging send) (lifted op) env)
        (λ x v. Returned v.1)
        (λ v. Stopped v.1)
  fresh-Leads =
      let log = checked_log [] in
      Leads-weaken (Still send op env log) (Thrown log) (λ v. Stopped v.1) (λ x v. Launched log v)
        (λ x v. Returned v.1) (deploy_fresh (logging send) (lifted op) env)
        (λ x v (id, e). inr (
          id,
          ap (λ k. k.checks) e,
          ap (λ k. k.launched) e,
          ap (λ k. k.ids) e,
          ap (λ k. k.tagged) e,
        ))
        (λ v t. elim t [
          | inl e ↦ inl (ap (λ k. k.launched) e, ap (λ k. k.tagged) e)
          | inr (one, none_up) ↦ inr (one, none_up)
        ])
        (deploy_fresh-Goes log).goes

  running-Leads :
      (found : List (Option String))
      → Leads
          (Still send op env (checked_log found))
          (unless_running (logging send) (lifted op) env found)
          (λ x v. Returned v.1)
          (λ v. Stopped v.1)
  running-Leads (id ∷ ids) v still =
      inl
        (ap (λ k. k.launched) still, ap (λ k. k.tagged) still, (id, ids, ap (λ k. k.checks) still))
  running-Leads [] v still = fresh-Leads v still

  checked-Leads :
      (b : Bool)
      → Leads
          (Still send op env no_log)
          (deploy_checked (logging send) (lifted op) env b)
          (λ x v. Returned v.1)
          (λ v. Stopped v.1)
  checked-Leads false v still = inl (ap (λ k. k.launched) still, ap (λ k. k.tagged) still)
  checked-Leads true v still =
      let c = Command.describe_instances instance_tag ("pending" ∷ "running" ∷ []) in
      Leads-bind (Still send op env no_log) (λ v. Stopped v.1)
        (λ r v. Still send op env (checked_log r.values) v) (λ x v. Returned v.1) (logging send c)
        (λ running. unless_running (logging send) (lifted op) env running.values)
        (noted-Leads c (Still send op env no_log)
          (λ r v. Still send op env (checked_log r.values) v) (λ v. Stopped v.1)
          (λ w l x w' p. rw p refl)
          (λ w l e w' p. inl (ap (λ k. k.launched) p, ap (λ k. k.tagged) p)))
        (λ running. running-Leads running.values) v still

-- Whatever AWS answers, a run of `pnpm deploy:ec2` that returns had asked which workers are pending or
-- running, and launched and tagged nothing where there was one; where there was none, it has asked for
-- the launch of just one instance, and tagged the one whose id was replied, and no other, as the
-- worker. A run that throws has launched and tagged nothing, or has asked for one launch after an answer
-- that there was none.
pub deploy_launches_once :
    {W : Type 0} (send : Sdk W) (op : Operator W) (env : DriverSettings) (w : W)
    → Ends
        (λ x v. Returned v.1)
        (λ v. Stopped v.1)
        (deploy (logging send) (lifted op) env (w, no_log))
unfolding deploy
deploy_launches_once send op env w =
    checked-Leads send op env (truthy env.s3_bucket && truthy env.sqs_queue_url) (w, no_log) refl
