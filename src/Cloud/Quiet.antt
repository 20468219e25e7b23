-- ===== src/Cloud/Quiet.antt =====
-- The steps of commands/provisionAws.ts that look for nothing and create nothing, over a predicate
-- that commands keep which do neither.
use saral.Base.{ℕ, ◌≡◌, refl, inl, inr, Option, none, some, List, String, Bool-cases}
use text.Mathlib.Text.{◌==◌ as str_eq}
use saral.Meta.Client.Paginate.{truthy}
use saral.Asset.Storage.{Attempt, got, threw}
use saral.Config.Env.{DriverSettings}
use saral.Schedule.Cron.{to_event_bridge_expression}
use saral.Schedule.Bridge.{
  BridgeOptions, BridgeClients, ScheduleInput, updated, created, resolved, or_nothing,
  schedule_input, put_schedule, ensure_schedules,
}
use saral.Cloud.Sdk.{Command, Reply, Sdk}
use saral.Cloud.Action.{present}
use saral.Cloud.Logic.{Ends, Leads, Leads-bind, Leads-weaken, Leads-present}
use saral.Cloud.Account.{Trace, traced}
use saral.Cloud.Provision.{
  queue_arn, sent, arn_of, bridge_clients, ended, expression, schedule_syncs,
}

module _ {V : Type 0} (send : Sdk V) (pause : ℕ → V → V) (split : String → List String)
    (env : DriverSettings) (P : V → Type 0)
    (quiet : (c : Command)
      → ((r : Attempt Reply String) (t : Trace) → traced c r t ≡ t)
      → Leads P (send c) (λ x w. P w) P) where
  Leads-value : (e : String) (o : Option String) → Leads P (present e o) (λ x w. P w) P
  Leads-value e o =
      Leads-weaken P P P (λ s w. P w × (o ≡ some s)) (λ s w. P w) (present e o) (λ x w q. q.0)
        (λ w q. q) (Leads-present P e o)

  pub queue_arn-Leads : (url : String) → Leads P (queue_arn send pause split env url) (λ x w. P w) P
  unfolding queue_arn
  queue_arn-Leads url =
      Leads-bind P P (λ x w. P w) (λ x w. P w) (send (Command.get_queue_arn url)) _
        (quiet (Command.get_queue_arn url) (λ r t. refl))
        (λ r. Leads-value "could not resolve ARN" r.value)

  -- A reply, or an error, of a command that keeps `P`.
  sent_keeps :
      (c : Command)
      → ((r : Attempt Reply String) (t : Trace) → traced c r t ≡ t)
      → (w : V) → P w
      → P (send c w).0
  sent_keeps c untraced w p = either (send c w) (quiet c untraced w p)
    where
      either : (o : V × Attempt Reply String) → Ends (λ x w. P w) P o → P o.0
      either (w1, got x) q = q
      either (w1, threw e) q = q

  abbrev clients : BridgeClients V
  clients = bridge_clients send pause split env

  updated_keeps :
      (o : BridgeOptions) (x : V × Attempt Reply String)
      → P x.0
      → P (updated clients o (sent send pause split env x)).0
  updated_keeps o (w, got r) p = p
  updated_keeps o (w, threw e) p = elim (Bool-cases (str_eq e "ConflictException")) [
    | inl same ↦ rw same p
    | inr other ↦ rw other p
  ]

  created_keeps :
      (o : BridgeOptions) (i : ScheduleInput) (x : V × Attempt Reply String)
      → P x.0
      → P (created clients o i (sent send pause split env x)).0
  created_keeps o i (w, got r) p = p
  created_keeps o i (w, threw e) p = elim (Bool-cases (str_eq e "ConflictException")) [
    | inr other ↦ rw other p
    | inl same ↦ rw same (
        updated_keeps o (send (Command.update_schedule i) w)
          (sent_keeps (Command.update_schedule i) (λ r t. refl) w p))
  ]

  resolved_keeps :
      (o : BridgeOptions) (x : V × Attempt Reply String)
      → P x.0
      → P (resolved clients o (arn_of send pause split env x)).0
  unfolding put_schedule
  resolved_keeps o (w, threw e) p = p
  resolved_keeps o (w, got r) p =
      let i = schedule_input o (or_nothing r.value) in
      elim (Bool-cases (truthy r.value)) [
        | inr empty ↦ rw empty p
        | inl filled ↦ rw filled (
            created_keeps o i (send (Command.create_schedule i) w)
              (sent_keeps (Command.create_schedule i) (λ r t. refl) w p))
      ]

  ended_keeps : (x : V × Option String) → P x.0 → Ends (λ u w. P w) P (ended send pause split env x)
  ended_keeps (w, none) p = p
  ended_keeps (w, some e) p = p

  expression-Leads :
      (text : List String → String) (fields : Option (List String))
      → Leads P (expression send pause split env text fields) (λ x w. P w) P
  expression-Leads text none w p = p
  expression-Leads text (some fields) w p = p

  pub schedule_syncs-Leads :
      (text : List String → String) (queue_url role_arn : String)
      → Leads P (schedule_syncs send pause split env text queue_url role_arn) (λ x w. P w) P
  unfolding schedule_syncs ensure_schedules
  schedule_syncs-Leads text queue_url role_arn =
      Leads-bind P P (λ x w. P w) (λ x w. P w)
        (expression send pause split env text
          (to_event_bridge_expression (split env.recent_sync_cron)))
        _ (expression-Leads text _)
        (λ e w p.
          let o : BridgeOptions = record {
            schedule_name = env.schedule_name;
            schedule_expression = e;
            queue_url = queue_url;
            role_arn = role_arn;
          } in
          ended_keeps (ensure_schedules clients o w) (
            resolved_keeps o (send (Command.get_queue_arn queue_url) w)
              (sent_keeps (Command.get_queue_arn queue_url) (λ r t. refl) w p)))
