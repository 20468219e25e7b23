-- ===== src/Schedule/Ensured.antt =====
-- What EventBridgeScheduler.ensureSchedules (src/adapters/aws/EventBridgeScheduler.ts) leaves.
use saral.Base.{
  ◌≡◌, ◌≢◌, refl, sym, ◌∙◌, ◌⊎◌, inl, inr, true, false, Option, none, some, String, arith,
  Option-cases, Bool-cases,
}
use saral.Jobs.{recent, Job}
use saral.Meta.Client.Paginate.{truthy}
use saral.Schedule.Bridge.{
  BridgeOptions, ScheduleInput, Sent, done, conflict, failed, BridgeClients, Ended, schedule_input,
  updated, created, put_schedule, ensure_schedules,
}

-- What EventBridge promises: it keeps one schedule for each name. A command changes at most the
-- schedule that it names, and at most to its input; where it is done, it has set it. SQS changes none.
pub record BridgeLaws {W : Type 0} (clients : BridgeClients W)
    (schedule : W → String → Option ScheduleInput) : Type 0 where
  pub arn_keeps :
      (url name : String) (w : W) → schedule (clients.get_queue_arn url w).0 name ≡ schedule w name
  pub create_done :
      (i : ScheduleInput) (w : W)
      → (clients.create_schedule i w).1 ≡ done
      → schedule (clients.create_schedule i w).0 i.name ≡ some i
  pub create_only :
      (i : ScheduleInput) (name : String) (w : W)
      → (schedule (clients.create_schedule i w).0 name ≡ schedule w name)
        ⊎ ((name ≡ i.name) × (schedule (clients.create_schedule i w).0 name ≡ some i))
  pub update_done :
      (i : ScheduleInput) (w : W)
      → (clients.update_schedule i w).1 ≡ done
      → schedule (clients.update_schedule i w).0 i.name ≡ some i
  pub update_only :
      (i : ScheduleInput) (name : String) (w : W)
      → (schedule (clients.update_schedule i w).0 name ≡ schedule w name)
        ⊎ ((name ≡ i.name) × (schedule (clients.update_schedule i w).0 name ≡ some i))

-- The configured schedule: enabled, without a flexible window, with the dispatch of the recent
-- syncs as the message to the queue.
abbrev pub IsWanted : BridgeOptions → (queue_arn : String) → ScheduleInput → Type 0
IsWanted o queue_arn i =
    (i.name ≡ o.schedule_name)
    × (i.schedule_expression ≡ o.schedule_expression)
    × (i.is_flexible ≡ false)
    × (i.target_arn ≡ queue_arn)
    × (i.role_arn ≡ o.role_arn)
    × (i.input ≡ Job.dispatch_due_syncs recent)
    × (i.is_enabled ≡ true)

-- The name has the configured schedule, for the ARN that SQS replied.
abbrev pub IsConfigured :
    {W : Type 0}
    → BridgeClients W
    → (W → String → Option ScheduleInput)
    → BridgeOptions
    → W
    → W
    → Type 0
IsConfigured clients schedule o w w' =
    (arn : String) × (i : ScheduleInput) × ((clients.get_queue_arn o.queue_url w).1
      ≡ some (some arn))
    × (schedule w' o.schedule_name ≡ some i)
    × IsWanted o arn i

-- Why a call was rejected: SQS replied no ARN, or the create failed with another error than a
-- conflict, or it conflicted and the update was not done.
abbrev pub HasCause : {W : Type 0} → BridgeClients W → BridgeOptions → W → String → Type 0
HasCause {W} clients o w e =
    let w1 = (clients.get_queue_arn o.queue_url w).0 in
    (((arn : String) → (clients.get_queue_arn o.queue_url w).1 ≡ some (some arn) → arn ≡ "")
      ⊎ ((i : ScheduleInput) × (i.name ≡ o.schedule_name)
          × (((clients.create_schedule i w1).1 ≡ failed e)
              ⊎ (((clients.create_schedule i w1).1 ≡ conflict)
                  × ((clients.update_schedule i (clients.create_schedule i w1).0).1 ≢ done)))))

-- How a call ends that takes the world `w` to `w'`.
abbrev pub Outcome :
    {W : Type 0}
    → BridgeClients W
    → (W → String → Option ScheduleInput)
    → BridgeOptions
    → W
    → W × Ended
    → Type 0
Outcome clients schedule o w (w', ended) =
    (((ended ≡ none) × IsConfigured clients schedule o w w')
      ⊎ ((e : String) × (ended ≡ some e) × HasCause clients o w e))
    × ((name : String)
        → (schedule w' name ≡ schedule w name)
          ⊎ ((name ≡ o.schedule_name)
              × ((arn : String) × (i : ScheduleInput) × (schedule w' name ≡ some i)
                  × IsWanted o arn i)))

not_truthy : (s : String) → truthy (some s) ≡ false → s ≡ ""
not_truthy String.[] h = refl
not_truthy (String.◌∷◌ c s) h = cc

Sent-cases : (s : Sent) → (s ≡ done) ⊎ (s ≡ conflict) ⊎ ((e : String) × (s ≡ failed e))
Sent-cases done = inl refl
Sent-cases conflict = inr (inl refl)
Sent-cases (failed e) = inr (inr (e, refl))

module _ {W : Type 0} (clients : BridgeClients W) (schedule : W → String → Option ScheduleInput)
    (laws : BridgeLaws clients schedule) (o : BridgeOptions) where
  -- The outcome of a put of an input, from the world in which SQS has answered.
  abbrev Puts : ScheduleInput → W → W × Ended → Type 0
  Puts i w (w', none) = schedule w' i.name ≡ some i
  Puts i w (w', some e) =
      (((clients.create_schedule i w).1 ≡ failed e)
        ⊎ (((clients.create_schedule i w).1 ≡ conflict)
            × ((clients.update_schedule i (clients.create_schedule i w).0).1 ≢ done)))

  abbrev Only : ScheduleInput → String → W → W → Type 0
  Only i name w w' =
      (schedule w' name ≡ schedule w name) ⊎ ((name ≡ i.name) × (schedule w' name ≡ some i))

  updated-Puts :
      (i : ScheduleInput) (w : W)
      → (clients.create_schedule i w).1 ≡ conflict
      → Puts i w (updated clients o (clients.update_schedule i (clients.create_schedule i w).0))
  updated-Puts i w taken =
      let w1 = (clients.create_schedule i w).0 in
      elim (Sent-cases (clients.update_schedule i w1).1) [
        | inl e ↦ rw e (laws.update_done i w1 e)
        | inr (inl e) ↦ rw e (inr (taken, λ d. let no : conflict ≡ done = sym e ∙ d in cc))
        | inr (inr (x, e)) ↦ rw e (inr (taken, λ d. let no : failed x ≡ done = sym e ∙ d in cc))
      ]

  created-Puts :
      (i : ScheduleInput) (w : W) → Puts i w (created clients o i (clients.create_schedule i w))
  created-Puts i w = elim (Sent-cases (clients.create_schedule i w).1) [
    | inl e ↦ rw e (laws.create_done i w e)
    | inr (inl e) ↦ rw e (updated-Puts i w e)
    | inr (inr (x, e)) ↦ rw e (inl e)
  ]

  created-Only :
      (i : ScheduleInput) (name : String) (w : W)
      → Only i name w (created clients o i (clients.create_schedule i w)).0
  created-Only i name w =
      let w1 = (clients.create_schedule i w).0 in
      let first = laws.create_only i name w in
      let second = laws.update_only i name w1 in
      elim (Sent-cases (clients.create_schedule i w).1) [
        | inl e ↦ rw e first
        | inr (inr (x, e)) ↦ rw e first
        | inr (inl e) ↦ elim (Sent-cases (clients.update_schedule i w1).1) [
          | inl d ↦ rw (e, d) (ground (arith, first, second))
          | inr (inl d) ↦ rw (e, d) (ground (arith, first, second))
          | inr (inr (x, d)) ↦ rw (e, d) (ground (arith, first, second))
        ]
      ]

  -- From where SQS has answered with an ARN.
  put-Outcome :
      (w : W) (arn : String)
      → (clients.get_queue_arn o.queue_url w).1 ≡ some (some arn)
      → Outcome clients schedule o w
          (put_schedule clients o arn (clients.get_queue_arn o.queue_url w).0)
  unfolding put_schedule schedule_input
  put-Outcome w arn known =
      let i = schedule_input o arn in
      let w1 = (clients.get_queue_arn o.queue_url w).0 in
      let ended = (created clients o i (clients.create_schedule i w1)).1 in
      let wanted : IsWanted o arn i = (refl, refl, refl, refl, refl, refl, refl) in
      let puts = created-Puts i w1 in
      (
        elim (Option-cases ended) [
          | inl e ↦ inl (e, (arn, i, known, rw (e, Puts) at puts, wanted))
          | inr (x, e) ↦ inr (x, e, inr (i, refl, rw (e, Puts) at puts))
        ],
        λ name. elim (created-Only i name w1) [
          | inl kept ↦ inl (kept ∙ laws.arn_keeps o.queue_url name w)
          | inr (named, set) ↦ inr (named, (arn, i, set, wanted))
        ],
      )

  -- Let EventBridge keep its promises, whatever its commands and the lookup of the queue answer. Where
  -- `ensureSchedules` is fulfilled, the name has the schedule that is configured: with its expression,
  -- enabled, without a flexible window, with the dispatch of the recent syncs as the message to the ARN
  -- that SQS replied. Where it is rejected, SQS had replied no ARN, or the create failed with that error,
  -- or it conflicted and the update was not done. Either way, every schedule is as it was, or is the
  -- one of that name and is set as configured.
  pub ensure_schedules-sets : (w : W) → Outcome clients schedule o w (ensure_schedules clients o w)
  unfolding ensure_schedules
  ensure_schedules-sets w =
      let kept : (name : String)
          → schedule (clients.get_queue_arn o.queue_url w).0 name ≡ schedule w name =
        λ name. laws.arn_keeps o.queue_url name w in
      elim (Option-cases (clients.get_queue_arn o.queue_url w).1) [
        | inl none_replied ↦
            rw none_replied
              (inr ("GetQueueAttributes failed", refl, inl (λ arn e. cc)), λ name. inl (kept name))
        | inr (none, replied) ↦
            rw replied
              (inr ("could not resolve QueueArn", refl, inl (λ arn e. cc)), λ name. inl (kept name))
        | inr (some arn, replied) ↦ elim (Bool-cases (truthy (some arn))) [
          | inl named ↦
              let same : ensure_schedules clients o w
                  ≡ put_schedule clients o arn (clients.get_queue_arn o.queue_url w).0 =
                rw (replied, named) refl in
              rw same (put-Outcome w arn replied)
          | inr empty ↦
              rw (replied, empty)
                (
                  inr (
                    "could not resolve QueueArn",
                    refl,
                    inl (λ a e. let same : arn ≡ a = cc in sym same ∙ not_truthy arn empty),
                  ),
                  λ name. inl (kept name),
                )
        ]
      ]
