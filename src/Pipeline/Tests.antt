-- ===== src/Pipeline/Tests.antt =====
-- A run of the jobs over one relationship, two definitions of risks and one scenario.
use middle_east_geopolitic.Common.{refl, ◌≡◌, ◌∷◌, [], none, some, true, String, ℕ}
use middle_east_geopolitic.Common.Int.{ℤ, pos}
use middle_east_geopolitic.Common.Fixed.{thousandths}
use middle_east_geopolitic.Risk.Models.{
  RiskStore, RiskDefinition, RiskIndicatorWeight, IndicatorDefinition,
}
use middle_east_geopolitic.Risk.Llm.{model_version_of, get_llm_adjustment, Settings}
use middle_east_geopolitic.Enums.{relationship, manual, positive}
use middle_east_geopolitic.Scenarios.Models.{ScenarioStore, Scenario, regional_escalation}
use middle_east_geopolitic.Scenarios.Engine.{
  assessment_of, get_llm_update, update_scenario, new_scenario,
}
use middle_east_geopolitic.Scenarios.Repository.{
  insert_assessment, latest_assessment, get_scenario, insert_scenario,
}
use middle_east_geopolitic.Relationships.Service.{
  list_relationships, RelationshipStore, new_relationship, symmetric,
}
use middle_east_geopolitic.Pipeline.Jobs.{
  list_definitions, recalculate_definitions, list_scenarios, evaluate_scenarios,
  recalculate_relationships, Collation, risk_recalculation, scenario_evaluation,
}
use middle_east_geopolitic.Pipeline.Counts.{jobs-count, RisksGrow, ScenariosGrow}
use middle_east_geopolitic.Risk.Engine.{build, contribution_of, gather, collect, assess, calculate}
use middle_east_geopolitic.Common.Rows.{order_desc, order_asc, select, latest, first?}
use middle_east_geopolitic.Risk.Repository.{
  get_latest_assessment, get_latest_observation, get_indicator, list_weights, get_definition,
}
use middle_east_geopolitic.Risk.Scoring.{aggregate_contributions, trend_of, is_stale}

abbrev escalation : RiskDefinition
escalation = record {
  id = 1;
  code = "escalation";
  name = "Escalation";
  scope_types = "relationship" ∷ [];
  ruleset_version = "v1";
}

-- It is of countries only, so the job passes over it.
abbrev unrest : RiskDefinition
unrest = record escalation { id = 2; code = "unrest"; scope_types = "country" ∷ [] }

abbrev talks : IndicatorDefinition ℤ
talks = record {
  id = 11;
  code = "talks";
  name = "Talks";
  normalization_method = manual;
  lower_bound = none;
  upper_bound = none;
  staleness_hours = none;
  active = true;
}

abbrev weight : RiskIndicatorWeight ℤ
weight = record {
  risk_definition_id = 1;
  indicator_definition_id = 11;
  weight = pos 1000;
  direction = positive;
}

abbrev risks : RiskStore ℤ
risks = record {
  definitions = escalation ∷ unrest ∷ [];
  weights = weight ∷ [];
  indicators = talks ∷ [];
  observations = [];
  assessments = [];
  review_tasks = [];
}

abbrev relations : RelationshipStore ℤ
relations = record {
  actors = 1 ∷ 2 ∷ [];
  relationships = new_relationship 10 5 1 2 "rivalry" symmetric ∷ [];
  observations = [];
}

abbrev scenarios : ScenarioStore ℤ
scenarios =
    insert_scenario
      (new_scenario
        (record {
          name = "Escalation";
          scope_type = relationship;
          scope_id = some 5;
          scenario_family = regional_escalation;
          time_horizon = "90d";
          description = none;
        })
        1)
      (record { scenarios = []; assessments = [] })

abbrev cfg : Settings
cfg = record {
  llm_provider = "openai";
  llm_model = "m";
  llm_secondary_model = "n";
  score_delta_threshold = 15;
  agreement_tolerance = 5;
}

abbrev by_first : Collation
by_first code = 0

abbrev context : Scenario → ℕ → String
context c at = "nothing new"

risk_count : (risk_recalculation by_first cfg 100 none (λ r d. 40) relations risks).0 ≡ 1
unfolding risk_recalculation recalculate_relationships recalculate_definitions calculate assess
    collect get_definition list_weights gather get_indicator contribution_of is_stale
    get_latest_observation get_llm_adjustment build trend_of aggregate_contributions latest select
    first? get_latest_assessment model_version_of list_definitions list_relationships order_asc
    order_desc
risk_count = refl

scenario_count : (scenario_evaluation "m" 100 context none (λ c. 50) scenarios).0 ≡ 1
unfolding scenario_evaluation evaluate_scenarios list_scenarios update_scenario get_scenario first?
    latest_assessment latest select get_llm_update assessment_of insert_assessment insert_scenario
scenario_count = refl

jobs-count_example :
    RisksGrow (0, risks) (risk_recalculation by_first cfg 100 none (λ r d. 40) relations risks)
    × ScenariosGrow (0, scenarios) (scenario_evaluation "m" 100 context none (λ c. 50) scenarios)
jobs-count_example =
    jobs-count by_first cfg "m" 100 none context none (λ r d. 40) (λ c. 50) relations risks
      scenarios
