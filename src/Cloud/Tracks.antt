-- ===== src/Cloud/Tracks.antt =====
-- The steps of commands/provisionAws.ts that look for a resource, and create it where they do not find
-- it.
use saral.Base.{
  ℕ, ◌≡◌, ap, sym, inl, inr, Bool, true, false, Option, some, List, [], ◌∷◌, ◌++◌, String,
}
use saral.Meta.Client.Paginate.{truthy}
use saral.Asset.Storage.{Attempt, got, threw, Attempt-cases}
use saral.Config.Env.{DriverSettings}
use saral.Cloud.Sdk.{Command, Reply, Sdk}
use saral.Cloud.Action.{Action, return_it, try_catch, ◌>>=◌, present}
use saral.Cloud.Logic.{Leads, Leads-try_catch, Leads-weaken, Leads-bind, Leads-present}
use saral.Cloud.Account.{
  Resource, bucket, queue, role, Trace, looked_up, asked_for, traced, Traced, tracing,
  tracing_pause,
}
use saral.Cloud.Quiet.{queue_arn-Leads, schedule_syncs-Leads}
use saral.Cloud.Provision.{
  create_queue, no_url, url_or_create, ensure_queue_url, queue_arn, wait_for_role, schedule_syncs,
}

module _ {W : Type 0} (send : Sdk W) (pause : ℕ → W → W) (split : String → List String)
    (env : DriverSettings) where
  -- Just what was looked for in vain was asked for.
  abbrev pub Even : Traced W → Type 0
  Even v = v.1.created ≡ v.1.missing

  -- And these were looked for.
  abbrev pub Sound : List Resource → Traced W → Type 0
  Sound rs v = (v.1.looked ≡ rs) × (v.1.created ≡ v.1.missing)

  -- The last one was looked for in vain, and is not yet asked for.
  abbrev Owing : List Resource → Resource → Traced W → Type 0
  Owing rs r v = (v.1.looked ≡ rs ++ (r ∷ [])) × (v.1.missing ≡ v.1.created ++ (r ∷ []))

  traced-Leads :
      (c : Command) (P : Traced W → Type 0) (R : Reply → Traced W → Type 0) (T : Traced W → Type 0)
      → ((w : W) (t : Trace) (x : Reply) (w' : W) → P (w, t) → R x (w', traced c (got x) t))
      → ((w : W) (t : Trace) (e : String) (w' : W) → P (w, t) → T (w', traced c (threw e) t))
      → Leads P (tracing send c) R T
  traced-Leads c P R T f g (w, t) p = elim (Attempt-cases (send c w).1) [
    | inl (e, failed) ↦ rw failed (g w t e (send c w).0 p)
    | inr (x, ok) ↦ rw ok (f w t x (send c w).0 p)
  ]

  quiet-Leads :
      (rs : List Resource) (c : Command)
      → ((r : Attempt Reply String) (t : Trace) → traced c r t ≡ t)
      → Leads (Sound rs) (tracing send c) (λ x v. Sound rs v) (Sound rs)
  quiet-Leads rs c untraced =
      traced-Leads c (Sound rs) (λ x v. Sound rs v) (Sound rs)
        (λ w t x w' p. rw (untraced (got x) t) p) (λ w t e w' p. rw (untraced (threw e) t) p)

  -- From one list of lookups to another.
  pub record Steps {A : Type 0} (rs rs' : List Resource) (a : Action (Traced W) A) : Type 0 where
    pub steps : Leads (Sound rs) a (λ x v. Sound rs' v) Even

  kept-Steps :
      {A : Type 0} (rs : List Resource) (a : Action (Traced W) A)
      → Leads (Sound rs) a (λ x v. Sound rs v) (Sound rs)
      → Steps rs rs a
  kept-Steps rs a h = record {
    steps =
        Leads-weaken (Sound rs) (Sound rs) Even (λ x v. Sound rs v) (λ x v. Sound rs v) a
          (λ x v q. q) (λ v q. q.1) h;
  }

  pub quiet-Steps :
      (rs : List Resource) (c : Command)
      → ((r : Attempt Reply String) (t : Trace) → traced c r t ≡ t)
      → Steps rs rs (tracing send c)
  quiet-Steps rs c untraced = kept-Steps rs (tracing send c) (quiet-Leads rs c untraced)

  pub bind-Steps :
      {A B : Type 0} (rs rs1 rs2 : List Resource) (a : Action (Traced W) A)
      (k : A → Action (Traced W) B)
      → Steps rs rs1 a
      → ((x : A) → Steps rs1 rs2 (k x))
      → Steps rs rs2 (a >>= k)
  bind-Steps rs rs1 rs2 a k first rest = record {
    steps =
        Leads-bind (Sound rs) Even (λ x v. Sound rs1 v) (λ x v. Sound rs2 v) a k first.steps
          (λ x. (rest x).steps);
  }

  pub return-Steps : {A : Type 0} (rs : List Resource) (x : A) → Steps rs rs (return_it x)
  return-Steps rs x = record { steps = λ v q. q }

  pub present-Steps :
      (rs : List Resource) (e : String) (o : Option String) → Steps rs rs (present e o)
  present-Steps rs e o = kept-Steps rs (present e o) (
      Leads-weaken (Sound rs) (Sound rs) (Sound rs) (λ s v. Sound rs v × (o ≡ some s))
        (λ s v. Sound rs v) (present e o) (λ x v q. q.0) (λ v q. q) (Leads-present (Sound rs) e o))

  -- A creation of what was looked for in vain.
  settles :
      (rs : List Resource) (r : Resource) (v : Traced W)
      → Owing rs r v
      → Sound (rs ++ (r ∷ [])) (v.0, asked_for r v.1)
  settles rs r v (looked, owing) = (looked, sym owing)

  -- A lookup that creates where it fails.
  pub find_bucket-Steps :
      (rs : List Resource) (b : String) (l : Option String)
      → Steps rs (rs ++ (bucket b ∷ [])) (
          try_catch
            (tracing send (Command.head_bucket b))
            (λ e. tracing send (Command.create_bucket b l)))
  find_bucket-Steps rs b l = record {
    steps =
        Leads-try_catch (Sound rs) (Owing rs (bucket b)) Even
          (λ x v. Sound (rs ++ (bucket b ∷ [])) v) (tracing send (Command.head_bucket b))
          (λ e. tracing send (Command.create_bucket b l))
          (traced-Leads (Command.head_bucket b) (Sound rs) (λ x v. Sound (rs ++ (bucket b ∷ [])) v)
            (Owing rs (bucket b)) (λ w t x w' p. (ap (λ k. k ++ (bucket b ∷ [])) p.0, p.1))
            (λ w t e w' p.
              (ap (λ k. k ++ (bucket b ∷ [])) p.0, ap (λ k. k ++ (bucket b ∷ [])) (sym p.1))))
          (λ e.
            traced-Leads (Command.create_bucket b l) (Owing rs (bucket b))
              (λ x v. Sound (rs ++ (bucket b ∷ [])) v) Even
              (λ w t x w' p. settles rs (bucket b) (w', t) p)
              (λ w t e w' p. (settles rs (bucket b) (w', t) p).1));
  }

  pub find_role-Steps :
      (rs : List Resource) (n p : String)
      → Steps rs (rs ++ (role n ∷ [])) (
          try_catch
            (tracing send (Command.get_role n))
            (λ e. tracing send (Command.create_role n p)))
  find_role-Steps rs n p = record {
    steps =
        Leads-try_catch (Sound rs) (Owing rs (role n)) Even (λ x v. Sound (rs ++ (role n ∷ [])) v)
          (tracing send (Command.get_role n)) (λ e. tracing send (Command.create_role n p))
          (traced-Leads (Command.get_role n) (Sound rs) (λ x v. Sound (rs ++ (role n ∷ [])) v)
            (Owing rs (role n)) (λ w t x w' q. (ap (λ k. k ++ (role n ∷ [])) q.0, q.1))
            (λ w t e w' q.
              (ap (λ k. k ++ (role n ∷ [])) q.0, ap (λ k. k ++ (role n ∷ [])) (sym q.1))))
          (λ e.
            traced-Leads (Command.create_role n p) (Owing rs (role n))
              (λ x v. Sound (rs ++ (role n ∷ [])) v) Even
              (λ w t x w' q. settles rs (role n) (w', t) q)
              (λ w t e w' q. (settles rs (role n) (w', t) q).1));
  }

  -- After the lookup of a queue, by whether it found a URL.
  abbrev AfterUrl : List Resource → String → Bool → Traced W → Type 0
  AfterUrl rs n true v = Sound (rs ++ (queue n ∷ [])) v
  AfterUrl rs n false v = Owing rs (queue n) v

  looked_up-AfterUrl :
      (rs : List Resource) (n : String) (found : Bool) (w : W) (t : Trace)
      → Sound rs (w, t)
      → AfterUrl rs n found (w, looked_up (queue n) found t)
  looked_up-AfterUrl rs n true w t p = (ap (λ k. k ++ (queue n ∷ [])) p.0, p.1)
  looked_up-AfterUrl rs n false w t p =
      (ap (λ k. k ++ (queue n ∷ [])) p.0, ap (λ k. k ++ (queue n ∷ [])) (sym p.1))

  create_queue-Leads :
      (rs : List Resource) (n : String)
      → Leads
          (Owing rs (queue n))
          (create_queue (tracing send) (tracing_pause pause) split env n)
          (λ x v. Sound (rs ++ (queue n ∷ [])) v)
          Even
  unfolding create_queue
  create_queue-Leads rs n =
      let c = Command.create_queue n env.sqs_visibility_timeout 1209600 in
      Leads-bind (Owing rs (queue n)) Even (λ x v. Sound (rs ++ (queue n ∷ [])) v)
        (λ x v. Sound (rs ++ (queue n ∷ [])) v) (tracing send c)
        (λ created. present "failed to create queue" created.value)
        (traced-Leads c (Owing rs (queue n)) (λ x v. Sound (rs ++ (queue n ∷ [])) v) Even
          (λ w t x w' q. settles rs (queue n) (w', t) q)
          (λ w t e w' q. (settles rs (queue n) (w', t) q).1))
        (λ x. (present-Steps (rs ++ (queue n ∷ [])) "failed to create queue" x.value).steps)

  url_or_create-Leads :
      (rs : List Resource) (n : String) (found : Bool) (url : Option String)
      → Leads
          (AfterUrl rs n found)
          (url_or_create (tracing send) (tracing_pause pause) split env n found url)
          (λ x v. Sound (rs ++ (queue n ∷ [])) v)
          Even
  url_or_create-Leads rs n true url v q = q
  url_or_create-Leads rs n false url v q = create_queue-Leads rs n v q

  pub queue_url-Steps :
      (rs : List Resource) (n : String)
      → Steps rs
          (rs ++ (queue n ∷ []))
          (ensure_queue_url (tracing send) (tracing_pause pause) split env n)
  unfolding ensure_queue_url
  queue_url-Steps rs n =
      let c = Command.get_queue_url n in
      record {
        steps =
            Leads-bind (Sound rs) Even (λ x v. AfterUrl rs n (truthy x.value) v)
              (λ x v. Sound (rs ++ (queue n ∷ [])) v)
              (try_catch (tracing send c) (no_url (tracing send) (tracing_pause pause) split env))
              (λ x.
                url_or_create (tracing send) (tracing_pause pause) split env n (truthy x.value)
                  x.value)
              (Leads-try_catch (Sound rs) (Owing rs (queue n)) Even
                (λ x v. AfterUrl rs n (truthy x.value) v) (tracing send c)
                (no_url (tracing send) (tracing_pause pause) split env)
                (traced-Leads c (Sound rs) (λ x v. AfterUrl rs n (truthy x.value) v)
                  (Owing rs (queue n))
                  (λ w t x w' p. looked_up-AfterUrl rs n (truthy x.value) w' t p)
                  (λ w t e w' p. looked_up-AfterUrl rs n false w' t p))
                (λ e v q. q))
              (λ x. url_or_create-Leads rs n (truthy x.value) x.value);
      }

  pub queue_arn-Steps :
      (rs : List Resource) (url : String)
      → Steps rs rs (queue_arn (tracing send) (tracing_pause pause) split env url)
  queue_arn-Steps rs url = kept-Steps rs _ (
      queue_arn-Leads (tracing send) (tracing_pause pause) split env (Sound rs) (quiet-Leads rs)
        url)

  pub schedule-Steps :
      (rs : List Resource) (text : List String → String) (url arn : String)
      → Steps rs rs (schedule_syncs (tracing send) (tracing_pause pause) split env text url arn)
  schedule-Steps rs text url arn = kept-Steps rs _ (
      schedule_syncs-Leads (tracing send) (tracing_pause pause) split env (Sound rs)
        (quiet-Leads rs) text url arn)

  pub wait-Steps :
      (rs : List Resource)
      → Steps rs rs (wait_for_role (tracing send) (tracing_pause pause) split env)
  wait-Steps rs = record { steps = λ v q. q }
