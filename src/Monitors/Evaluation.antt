-- ===== src/Monitors/Evaluation.antt =====
-- apps/worker/tasks/dispatch_notifications.py: the monitors that are enabled are evaluated one after
-- another, and a notification is stored for each that is triggered.
use middle_east_geopolitic.Monitors.Models.{
  default_limit, no_number, list_monitors, text, number, warning_of, MonitorStore, Value, Condition,
  Notification, Monitor,
}
use middle_east_geopolitic.Common.{
  ◌++◌, ◌==◌, ◌+◌, ◌&&◌, str_eq, str_elem, ltb, none, if◌then◌else◌, [], true, ◌∷◌, false, String,
  some, Bool, Option, List, ℕ,
}
use middle_east_geopolitic.Common.Float.{feq, fle, Float}
use middle_east_geopolitic.Common.Result.{◌>>=◌, ok, err, Result}
use middle_east_geopolitic.Common.Int.{negsuc, pos, ℤ}
use middle_east_geopolitic.Relationships.Service.{
  latest_observation, dimension_score_fields, RelationshipStore, RelationshipObservation, Scores,
}
use middle_east_geopolitic.Risk.Models.{RiskStore, RiskAssessment}
use middle_east_geopolitic.Casework.Models.{RawId}
use middle_east_geopolitic.Common.Rows.{update}
use middle_east_geopolitic.Casework.Review.{parse_uuid}
use middle_east_geopolitic.Risk.Repository.{get_latest_assessment}
use middle_east_geopolitic.Enums.{country}

abbrev or_default : Option String → String → String
or_default none d = d
or_default (some t) d = t

-- The columns of an observation that `float` refuses: ids, times and the trend.
abbrev other_columns : List String
other_columns =
    "id" ∷ "relationship_id" ∷ "observed_at" ∷ "trend" ∷ "evidence_bundle_id" ∷ "approved_at" ∷ []

-- `float(text)`, a parameter: the number that a text writes, if it does.
module _ {F : Type 0} ⦃fl : Float F⦄ (read_number : String → Option F) where
  abbrev pub to_float : Value F → Option F
  to_float (number x) = some x
  to_float (text t) = read_number t
  to_float no_number = none

  -- `_OPERATORS`
  abbrev pub comparator : String → Option (F → F → Bool)
  comparator op =
      if str_eq op ">"
      then some (λ a b. fl.lt b a)
      else if str_eq op ">="
      then some (λ a b. fle b a)
      else if str_eq op "<"
      then some (λ a b. fl.lt a b)
      else if str_eq op "<="
      then some (λ a b. fle a b)
      else if str_eq op "=="
      then some (λ a b. feq a b)
      else none

  abbrev compared : Option (F → F → Bool) → F → F → Bool
  compared none a b = false
  compared (some test) a b = test a b

  abbrev compare_floats : String → Option F → Option F → Bool
  compare_floats op (some a) (some b) = compared (comparator op) a b
  compare_floats op _ _ = false

  unfoldable pub evaluate_threshold : Value F → String → Value F → Bool
  evaluate_threshold value op threshold = compare_floats op (to_float value) (to_float threshold)

  -- `float` of an integer
  abbrev pub of_ℤ : ℤ → F
  of_ℤ (pos n) = fl.of_ℕ n
  of_ℤ (negsuc n) = fl.sub (fl.of_ℕ 0) (fl.of_ℕ (n + 1))

  abbrev score_value : Option ℤ → Option (Value F)
  score_value none = none
  score_value (some x) = some (number (of_ℤ x))

  abbrev score_named : String → Scores → Option (Value F)
  score_named field [] = none
  score_named field ((name, score) ∷ rest) =
      if str_eq name field then score_value score else score_named field rest

  abbrev text_value : Option String → Option (Value F)
  text_value none = none
  text_value (some t) = some (text t)

  abbrev number_value : Option F → Option (Value F)
  number_value none = none
  number_value (some x) = some (number x)

  -- `getattr(obs, field, None)`: the other columns hold no number, whatever their values.
  unfoldable pub attribute : String → RelationshipObservation F → Option (Value F)
  attribute field o =
      if str_elem field dimension_score_fields
      then score_named field o.scores
      else if str_eq field "confidence"
      then number_value o.confidence
      else if str_eq field "explanation"
      then text_value o.explanation
      else if str_eq field "ruleset_version"
      then text_value o.ruleset_version
      else if str_eq field "model_version"
      then text_value o.model_version
      else if str_eq field "approved_by"
      then text_value o.approved_by
      else if str_elem field other_columns
      then some no_number
      else none

  -- The time of a reading, and whether it violates the condition.
  abbrev pub Reading : Type 0
  Reading = Option (ℕ × Bool)

  abbrev violates : Option (Value F) → String → Value F → Bool
  violates none op threshold = false
  violates (some v) op threshold = evaluate_threshold v op threshold

  abbrev observed : Condition F → Value F → Option (RelationshipObservation F) → Reading
  observed c threshold none = none
  observed c threshold (some o) = some (
    o.observed_at,
    violates (attribute (or_default c.field "escalation_risk_score") o) (or_default c.operator ">=")
        threshold,
  )

  abbrev assessed : Condition F → Value F → Option (RiskAssessment F) → Reading
  assessed c threshold none = none
  assessed c threshold (some a) = some (
    a.assessed_at,
    evaluate_threshold (number (of_ℤ a.final_score)) (or_default c.operator ">=") threshold,
  )

  abbrev relationship_reading :
      ℕ → Condition F → Option RawId → Option (Value F) → RelationshipStore F → Result Reading
  relationship_reading now c (some i) (some threshold) r =
      parse_uuid i >>= λ rel. ok (observed c threshold (latest_observation rel (some now) r))
  relationship_reading now c _ _ r = ok none

  abbrev country_reading :
      ℕ
      → Condition F
      → Option RawId
      → Option RawId
      → Option (Value F)
      → RiskStore F
      → Result Reading
  country_reading now c (some i) (some d) (some threshold) k = parse_uuid d >>= λ risk.
      parse_uuid i >>= λ scope.
      ok (assessed c threshold (get_latest_assessment risk country (some scope) (some now) k))
  country_reading now c _ _ _ k = ok none

  -- What the evaluation reads for a type of monitor and a condition: an exception where an id is no UUID.
  unfoldable pub reading :
      ℕ → RelationshipStore F → RiskStore F → String → Condition F → Result Reading
  reading now r k kind c =
      if str_eq kind "relationship_threshold"
      then relationship_reading now c c.relationship_id c.value r
      else if str_eq kind "country_risk"
      then country_reading now c c.country_actor_id c.risk_definition_id c.value k
      else ok none

-- `not monitor.last_triggered_at or time > monitor.last_triggered_at`
abbrev pub is_newer : ℕ → Option ℕ → Bool
is_newer t none = true
is_newer t (some last) = ltb last t

-- The time of the reading that triggers the monitor.
abbrev pub trigger_time : Option (ℕ × Bool) → Option ℕ → Option ℕ
trigger_time none last = none
trigger_time (some (t, violated)) last = if violated && is_newer t last then some t else none

module _ {F : Type 0} where
  abbrev pub triggered_at : Option ℕ → Monitor F → Monitor F
  triggered_at none m = m
  triggered_at (some t) m = record m { last_triggered_at = some t }

  abbrev pub notified : ℕ → Monitor F → Option ℕ → List Notification
  notified fresh m none = []
  notified fresh m (some t) = warning_of fresh m.id m.delivery_channel ∷ []

  -- The body of the loop on what was read: the row of the monitor, and the notification.
  unfoldable pub evaluated : ℕ → Result (Option (ℕ × Bool)) → Monitor F → Monitor F
  evaluated now (err e) m = m
  evaluated now (ok r) m =
      let t = trigger_time r m.last_triggered_at in
      record (triggered_at t m) { last_evaluated_at = some now }

  unfoldable pub notifications_of : ℕ → Result (Option (ℕ × Bool)) → Monitor F → List Notification
  notifications_of fresh (err e) m = []
  notifications_of fresh (ok r) m = notified fresh m (trigger_time r m.last_triggered_at)

  -- The loop. `read` says what a monitor reads, `ids` gives the notifications their ids.
  unfoldable pub evaluate_each :
      ℕ
      → (ℕ → ℕ)
      → (String → Condition F → Result (Option (ℕ × Bool)))
      → ℕ
      → List (Monitor F)
      → MonitorStore F
      → MonitorStore F
  evaluate_each now ids read n [] s = s
  evaluate_each now ids read n (m ∷ rest) s = evaluate_each now ids read (n + 1) rest (record s {
    monitors =
        update (λ x. x.id == m.id) (λ x. evaluated now (read x.monitor_type x.condition) x)
          s.monitors;
    notifications = s.notifications ++ notifications_of (ids n) (read m.monitor_type m.condition) m;
  })

-- `_evaluate_monitors_async`: one round.
module _ {F : Type 0} ⦃fl : Float F⦄ (read_number : String → Option F) (collate : String → ℕ) where
  unfoldable pub evaluate_monitors :
      ℕ → (ℕ → ℕ) → RelationshipStore F → RiskStore F → MonitorStore F → MonitorStore F
  evaluate_monitors now ids r k s =
      evaluate_each now ids (reading read_number now r k) 0
        (list_monitors collate (some true) default_limit 0 s) s
