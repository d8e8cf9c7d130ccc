-- ===== src/Scenarios/Models.antt =====
-- src/mei/domain/scenarios/models.py: the rows of the scenario tables, and the enumerations of
-- src/mei/shared/enums.py that they use.
use middle_east_geopolitic.Common.{Option, ◌==◌, String, Bool, List, ℕ}
use middle_east_geopolitic.Enums.{ScopeType}

pub data ScenarioFamily : Type 0 where
  controlled_deescalation managed_confrontation : ScenarioFamily
  regional_escalation systemic_regional_war : ScenarioFamily

-- The place in `_FAMILY_SEVERITY_ORDER`.
abbrev pub severity : ScenarioFamily → ℕ
severity controlled_deescalation = 0
severity managed_confrontation = 1
severity regional_escalation = 2
severity systemic_regional_war = 3

abbrev pub family_eq : ScenarioFamily → ScenarioFamily → Bool
family_eq a b = severity a == severity b

pub data ScenarioStatus : Type 0 where
  active invalidated archived : ScenarioStatus

pub record Scenario : Type 0 where
  pub id : ℕ
  pub name : String
  pub scope_type : ScopeType
  pub scope_id : Option ℕ
  pub scenario_family : ScenarioFamily
  pub time_horizon : String
  pub status : ScenarioStatus
  pub description : Option String

pub record ScenarioAssessment (F : Type 0) : Type 0 where
  pub id : ℕ
  pub scenario_id : ℕ
  pub assessed_at : ℕ
  pub probability_low : F
  pub probability_high : F
  pub confidence : F
  pub assumptions : List String
  pub trigger_events : List String
  pub leading_indicators : List String
  pub expected_actor_behavior : Option String
  pub military_consequences : Option String
  pub economic_consequences : Option String
  pub humanitarian_consequences : Option String
  pub invalidation_criteria : List String
  pub explanation_of_change : Option String
  pub evidence_bundle_id : Option ℕ
  pub model_version : Option String
  pub approved_by : Option String
  pub approved_at : Option ℕ

pub record ScenarioStore (F : Type 0) : Type 0 where
  pub scenarios : List Scenario
  pub assessments : List (ScenarioAssessment F)
