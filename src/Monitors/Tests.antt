-- ===== src/Monitors/Tests.antt =====
-- Rounds over one monitor of a relationship, and the theorem at those tables.
use middle_east_geopolitic.Common.Fixed.{thousandths}
use middle_east_geopolitic.Monitors.Models.{
  warning_of, number, list_monitors, MonitorStore, Monitor,
}
use middle_east_geopolitic.Common.{true, refl, none, Option, [], ◌+◌, some, ◌∷◌, ◌≡◌, ℕ, String}
use middle_east_geopolitic.Monitors.Evaluation.{
  notifications_of, evaluated, attribute, evaluate_threshold, reading, evaluate_each,
  evaluate_monitors,
}
use middle_east_geopolitic.Relationships.Service.{
  latest_observation, RelationshipObservation, RelationshipStore,
}
use middle_east_geopolitic.Risk.Models.{RiskStore}
use middle_east_geopolitic.Common.Int.{pos, ℤ}
use middle_east_geopolitic.Monitors.Rounds.{evaluate_monitors-once}
use middle_east_geopolitic.Casework.Models.{uuid}
use middle_east_geopolitic.Common.Rows.{latest, order_asc, select}

abbrev watch : Monitor ℤ
watch = record {
  id = 1;
  name = "Escalation";
  user_id = 4;
  monitor_type = "relationship_threshold";
  condition = record {
    relationship_id = some (uuid 5);
    field = none;
    operator = some ">=";
    value = some (number (pos 70000));
    country_actor_id = none;
    risk_definition_id = none;
  };
  schedule = none;
  delivery_channel = "telegram";
  enabled = true;
  last_evaluated_at = none;
  last_triggered_at = some 90;
}

-- The score is 80 of 100, observed at 95.
abbrev tense : RelationshipObservation ℤ
tense = record {
  id = 7;
  relationship_id = 5;
  observed_at = 95;
  scores = ("escalation_risk_score", some (pos 80)) ∷ [];
  trend = none;
  confidence = none;
  explanation = none;
  evidence_bundle_id = none;
  ruleset_version = none;
  model_version = none;
  approved_at = none;
  approved_by = none;
}

abbrev relations : RelationshipStore ℤ
relations = record { actors = []; relationships = []; observations = tense ∷ [] }

abbrev risks : RiskStore ℤ
risks = record {
  definitions = [];
  weights = [];
  indicators = [];
  observations = [];
  assessments = [];
  review_tasks = [];
}

abbrev monitors : MonitorStore ℤ
monitors = record { monitors = watch ∷ []; notifications = [] }

abbrev no_text : String → Option ℤ
no_text t = none

abbrev round : ℕ → MonitorStore ℤ → MonitorStore ℤ
round now s = evaluate_monitors no_text (λ t. 0) now (λ n. 30 + n) relations risks s

alerted : (round 100 monitors).notifications ≡ warning_of 30 1 "telegram" ∷ []
unfolding evaluate_monitors list_monitors select order_asc evaluate_each reading latest_observation
    latest evaluate_threshold attribute evaluated notifications_of
alerted = refl

evaluate_monitors-once_example :
    (round 100 (round 100 monitors)).notifications ≡ (round 100 monitors).notifications
evaluate_monitors-once_example =
    evaluate_monitors-once no_text (λ t. 0) 100 100 (λ n. 30 + n) (λ n. 30 + n) relations relations
      risks risks monitors (λ kind c. refl)
