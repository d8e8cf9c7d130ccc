-- ===== src/Scenarios/Engine.antt =====
-- src/mei/application/services/scenario_engine.py: `ScenarioEngine`. The model and the text of the
-- context are parameters: `context` stands for `_gather_context`, which only reads.
pub mod Bounds
pub mod CarryForward
pub mod Writes
use middle_east_geopolitic.Common.Result
use middle_east_geopolitic.Common.Float.{Float}
use middle_east_geopolitic.Scenarios.Models.{
  invalidated, archived, ScenarioFamily, ScenarioAssessment, ScenarioStore, active, Scenario,
}
use middle_east_geopolitic.Common.{
  ◌==◌, str_eq, none, ◌∷◌, if◌then◌else◌, some, [], Option, ℕ, List, String,
}
use middle_east_geopolitic.Common.Result.{
  ◌>>=◌, not_found, llm_configuration, or_raise, llm_output, err, ok, Result,
}
use middle_east_geopolitic.Enums.{ScopeType}
use middle_east_geopolitic.Scenarios.Consistency.{
  put, check_family_consistency, Ranges, normalize_probability_range,
}
use middle_east_geopolitic.Scenarios.Repository.{
  insert_assessment, list_by_scope, get_scenario, latest_assessment, insert_scenario, get_by_family,
  set_status,
}
use middle_east_geopolitic.Risk.Engine.{or_else, or_text}

-- `ScenarioUpdateRecommendation`
pub record ScenarioUpdate (F : Type 0) : Type 0 where
  pub probability_low : F
  pub probability_high : F
  pub confidence : F
  pub assumptions : List String
  pub trigger_events : List String
  pub leading_indicators : List String
  pub expected_actor_behavior : String
  pub military_consequences : String
  pub economic_consequences : String
  pub humanitarian_consequences : String
  pub invalidation_criteria : List String
  pub explanation_of_change : String

-- `llm.generate_structured` on the scenario, the previous assessment and the context.
abbrev pub ScenarioLlm : Type 0 → Type 0
ScenarioLlm F = Scenario → Option (ScenarioAssessment F) → String → Result (ScenarioUpdate F)

-- The key and the texts of `create_scenario`.
pub record NewScenario : Type 0 where
  pub name : String
  pub scope_type : ScopeType
  pub scope_id : Option ℕ
  pub scenario_family : ScenarioFamily
  pub time_horizon : String
  pub description : Option String

-- `text or None`
abbrev pub or_none : String → Option String
or_none t = if str_eq t "" then none else some t

abbrev pub new_scenario : NewScenario → ℕ → Scenario
new_scenario q fresh = record {
  id = fresh;
  name = q.name;
  scope_type = q.scope_type;
  scope_id = q.scope_id;
  scenario_family = q.scenario_family;
  time_horizon = q.time_horizon;
  status = active;
  description = q.description;
}

module _ {F : Type 0} where
  unfoldable pub create_scenario : NewScenario → ℕ → ScenarioStore F → Scenario × ScenarioStore F
  create_scenario q fresh s = elim (get_by_family q.scope_type q.scope_id q.scenario_family s) [
    | some c ↦ (c, s)
    | none ↦ (new_scenario q fresh, insert_scenario (new_scenario q fresh) s)
  ]

  unfoldable pub archive_scenario : ℕ → ScenarioStore F → ScenarioStore F
  archive_scenario i s = set_status i archived s

  unfoldable pub invalidate_scenario : ℕ → ScenarioStore F → ScenarioStore F
  invalidate_scenario i s = set_status i invalidated s

  -- `simulate`: the reply, or one error for both failures of the model. No table is at hand.
  unfoldable pub simulate : Result (ScenarioUpdate F) → Result (ScenarioUpdate F)
  simulate (ok r) = ok r
  simulate (err llm_configuration) = err llm_output
  simulate (err e) = err e

  abbrev pub put_latest : ScenarioFamily → Option (ScenarioAssessment F) → Ranges F → Ranges F
  put_latest family none d = d
  put_latest family (some a) d = put family (a.probability_low, a.probability_high) d

  -- `_log_family_consistency`: the ranges of the siblings, as of now.
  unfoldable pub sibling_ranges : ℕ → List Scenario → ScenarioStore F → Ranges F → Ranges F
  sibling_ranges own [] s d = d
  sibling_ranges own (c ∷ cs) s d =
      let d' = put_latest c.scenario_family (latest_assessment c.id none s) d in
      sibling_ranges own cs s (if c.id == own then d else d')

module _ {F : Type 0} ⦃fl : Float F⦄ where
  -- `_fallback_update`. The limits that pydantic tests again are those that every stored row has kept.
  unfoldable pub fallback_update : Option (ScenarioAssessment F) → ScenarioUpdate F
  fallback_update none = record {
    probability_low = fl.of_ℕ 0;
    probability_high = fl.of_ℕ 100;
    confidence = fl.of_ℕ 0;
    assumptions = [];
    trigger_events = [];
    leading_indicators = [];
    expected_actor_behavior = "";
    military_consequences = "";
    economic_consequences = "";
    humanitarian_consequences = "";
    invalidation_criteria = [];
    explanation_of_change =
        "No LLM configured and no prior assessment; recorded as full uncertainty.";
  }
  fallback_update (some a) = record {
    probability_low = a.probability_low;
    probability_high = a.probability_high;
    confidence = a.confidence;
    assumptions = a.assumptions;
    trigger_events = a.trigger_events;
    leading_indicators = a.leading_indicators;
    expected_actor_behavior = or_text a.expected_actor_behavior "";
    military_consequences = or_text a.military_consequences "";
    economic_consequences = or_text a.economic_consequences "";
    humanitarian_consequences = or_text a.humanitarian_consequences "";
    invalidation_criteria = a.invalidation_criteria;
    explanation_of_change = "No LLM configured; carried the previous assessment forward.";
  }

  -- The reply of the model, or the fallback for the two errors that `_get_llm_update` catches.
  abbrev pub or_fallback :
      String
      → Option (ScenarioAssessment F)
      → Result (ScenarioUpdate F)
      → Result (ScenarioUpdate F × Option String)
  or_fallback version previous (ok r) = ok (r, some version)
  or_fallback version previous (err llm_configuration) = ok (fallback_update previous, none)
  or_fallback version previous (err llm_output) = ok (fallback_update previous, none)
  or_fallback version previous (err e) = err e

  -- `_get_llm_update`, or the fallback without a model.
  unfoldable pub get_llm_update :
      String
      → Option (ScenarioLlm F)
      → Scenario
      → Option (ScenarioAssessment F)
      → String
      → Result (ScenarioUpdate F × Option String)
  get_llm_update version none c previous context = ok (fallback_update previous, none)
  get_llm_update version (some llm) c previous context =
      or_fallback version previous (llm c previous context)

  -- The row that `update_scenario` stores.
  unfoldable pub assessment_of :
      ℕ → ℕ → ℕ → ℕ → Option String → ScenarioUpdate F × Option String → ScenarioAssessment F
  assessment_of fresh scenario_id assessed_at now triggered_by (r, version) =
      let range = normalize_probability_range r.probability_low r.probability_high in
      record {
        id = fresh;
        scenario_id = scenario_id;
        assessed_at = assessed_at;
        probability_low = range.0;
        probability_high = range.1;
        confidence = r.confidence;
        assumptions = r.assumptions;
        trigger_events = r.trigger_events;
        leading_indicators = r.leading_indicators;
        expected_actor_behavior = or_none r.expected_actor_behavior;
        military_consequences = or_none r.military_consequences;
        economic_consequences = or_none r.economic_consequences;
        humanitarian_consequences = or_none r.humanitarian_consequences;
        invalidation_criteria = r.invalidation_criteria;
        explanation_of_change = or_none r.explanation_of_change;
        evidence_bundle_id = none;
        model_version = version;
        approved_by = some (or_text triggered_by "system");
        approved_at = some now;
      }

  unfoldable pub log_family_consistency :
      Scenario → ScenarioAssessment F → ScenarioStore F → List (ScenarioFamily × ScenarioFamily)
  log_family_consistency c a s = check_family_consistency (
      sibling_ranges c.id (list_by_scope c.scope_type c.scope_id s) s
        (put c.scenario_family (a.probability_low, a.probability_high) (λ _. none)))

  -- With the assessment come the warnings that are logged and the tables after the call.
  unfoldable pub update_scenario :
      String
      → ℕ
      → (Scenario → ℕ → String)
      → ℕ
      → Option (ScenarioLlm F)
      → Option String
      → Option ℕ
      → ℕ
      → ScenarioStore F
      → Result (ScenarioAssessment F × List (ScenarioFamily × ScenarioFamily) × ScenarioStore F)
  update_scenario version now context scenario_id llm triggered_by as_of fresh s =
      or_raise (get_scenario scenario_id s) not_found >>= λ c.
      let assessed_at = or_else as_of now in
      let previous = latest_assessment scenario_id (some assessed_at) s in
      get_llm_update version llm c previous (context c assessed_at) >>= λ r.
      let a = assessment_of fresh scenario_id assessed_at now triggered_by r in
      let t = insert_assessment a s in ok (a, log_family_consistency c a t, t)
