-- ===== src/Scenarios/Repository.antt =====
-- src/mei/infrastructure/repositories/scenarios.py: queries and writes on a `ScenarioStore`.
use middle_east_geopolitic.Scenarios.Models.{
  family_eq, ScenarioFamily, ScenarioStore, ScenarioStatus, Scenario, ScenarioAssessment,
}
use middle_east_geopolitic.Enums.{scope_eq, ScopeType}
use middle_east_geopolitic.Common.{
  [], ltb, drop, id_eq, take, ◌&&◌, ◌==◌, ◌∷◌, ◌++◌, Bool, List, Option, ℕ,
}
use middle_east_geopolitic.Common.Rows.{
  no_earlier, order_desc, no_later, select, update, first?, latest,
}

abbrev pub is_in_scope : ScopeType → Option ℕ → Scenario → Bool
is_in_scope scope_type scope_id c = scope_eq c.scope_type scope_type && id_eq c.scope_id scope_id

abbrev pub is_of_family : ScopeType → Option ℕ → ScenarioFamily → Scenario → Bool
is_of_family scope_type scope_id family c =
    is_in_scope scope_type scope_id c && family_eq c.scenario_family family

module _ {F : Type 0} where
  unfoldable pub get_scenario : ℕ → ScenarioStore F → Option Scenario
  get_scenario i s = first? (λ c. c.id == i) s.scenarios

  unfoldable pub get_by_family :
      ScopeType → Option ℕ → ScenarioFamily → ScenarioStore F → Option Scenario
  get_by_family scope_type scope_id family s =
      first? (is_of_family scope_type scope_id family) s.scenarios

  -- `list_by_scope` without a status. Its order, by family, is left out.
  unfoldable pub list_by_scope : ScopeType → Option ℕ → ScenarioStore F → List Scenario
  list_by_scope scope_type scope_id s = select (is_in_scope scope_type scope_id) s.scenarios

  unfoldable pub insert_scenario : Scenario → ScenarioStore F → ScenarioStore F
  insert_scenario c s = record s { scenarios = s.scenarios ++ (c ∷ []) }

  -- An unknown id is no error.
  unfoldable pub set_status : ℕ → ScenarioStatus → ScenarioStore F → ScenarioStore F
  set_status i status s = record s {
    scenarios =
        update (λ (c : Scenario). c.id == i) (λ c. record c { status = status }) s.scenarios;
  }

  abbrev pub is_assessment_of : ℕ → Option ℕ → ScenarioAssessment F → Bool
  is_assessment_of i as_of a = a.scenario_id == i && no_later as_of a.assessed_at

  unfoldable pub latest_assessment : ℕ → Option ℕ → ScenarioStore F → Option (ScenarioAssessment F)
  latest_assessment i as_of s =
      latest (λ a. a.assessed_at) (select (is_assessment_of i as_of) s.assessments)

  -- `get_previous_assessment`
  unfoldable pub assessment_before : ℕ → ℕ → ScenarioStore F → Option (ScenarioAssessment F)
  assessment_before i before s =
      latest (λ a. a.assessed_at)
        (select (λ a. a.scenario_id == i && ltb a.assessed_at before) s.assessments)

  unfoldable pub list_assessments :
      ℕ → Option ℕ → Option ℕ → ℕ → ℕ → ScenarioStore F → List (ScenarioAssessment F)
  list_assessments i since until limit offset s = take limit (
      drop offset (
        order_desc (λ a. a.assessed_at)
          (select
            (λ (a : ScenarioAssessment F).
              a.scenario_id == i && no_earlier since a.assessed_at && no_later until a.assessed_at)
            s.assessments)))

  unfoldable pub insert_assessment : ScenarioAssessment F → ScenarioStore F → ScenarioStore F
  insert_assessment a s = record s { assessments = s.assessments ++ (a ∷ []) }
