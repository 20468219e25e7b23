-- ===== src/Schedule/Cron.antt =====
-- toEventBridgeExpression of src/adapters/index.ts. `unixCron.trim().split(/\s+/)` is the runtime's:
-- the fields are given, and the result is the six fields between `cron(` and `)`.
use saral.Base.{
  ◌≡◌, ◌≢◌, refl, ◌↔◌, ◌⊎◌, not, ◌&&◌, Option, none, some, List, [], ◌∷◌, String, arith,
  if◌then◌else◌, eq_iff,
}
use text.Mathlib.Text.{◌==◌ as str_eq}

-- `none` is the exception for another number of fields.
unfoldable pub to_event_bridge_expression : List String → Option (List String)
to_event_bridge_expression (minute ∷ hour ∷ day_of_month ∷ month ∷ day_of_week ∷ []) =
    let dom =
      if str_eq day_of_month "*" && not (str_eq day_of_week "*") then "?" else day_of_month in
    let dow = if str_eq day_of_week "*" && not (str_eq dom "?") then "?" else day_of_week in
    some (minute ∷ hour ∷ dom ∷ month ∷ dow ∷ "*" ∷ [])
to_event_bridge_expression fields = none

-- A day field after the translation: as it was written, or the `?` for a `*`.
abbrev pub Written : String → String → Type 0
Written field field' = (field' ≡ field) ⊎ ((field ≡ "*") × (field' ≡ "?"))

-- Exactly one of the two day fields is `?`.
abbrev pub OneMark : (dom dow : String) → Type 0
OneMark dom dow = ((dom ≡ "?") × (dow ≢ "?")) ⊎ ((dom ≢ "?") × (dow ≡ "?"))

-- A five-field expression without `?` in its day fields is translated to six fields: minute, hour
-- and month as they were written, `*` for the year, and each day field as it was written, a number of
-- a weekday included, or a `?` where it was `*`. Exactly one of the two day fields is `?` exactly if
-- one of them was `*`.
pub to_event_bridge_expression-marks :
    (minute hour dom month dow : String)
    → dom ≢ "?"
    → dow ≢ "?"
    → (dom' : String) × (dow' : String) × (to_event_bridge_expression
          (minute ∷ hour ∷ dom ∷ month ∷ dow ∷ [])
        ≡ some (minute ∷ hour ∷ dom' ∷ month ∷ dow' ∷ "*" ∷ []))
      × Written dom dom'
      × Written dow dow'
      × (OneMark dom' dow' ↔ ((dom ≡ "*") ⊎ (dow ≡ "*")))
unfolding to_event_bridge_expression
to_event_bridge_expression-marks minute hour dom month dow h k =
    let dom' = if str_eq dom "*" && not (str_eq dow "*") then "?" else dom in
    let dow' = if str_eq dow "*" && not (str_eq dom' "?") then "?" else dow in
    (
      dom',
      dow',
      refl,
      ground (arith, eq_iff dom "*", eq_iff dow "*"),
      ground (arith, eq_iff dom "*", eq_iff dow "*", eq_iff dom "?"),
      ground (arith, eq_iff dom "*", eq_iff dow "*", eq_iff dom "?", eq_iff dow "?"),
    )
