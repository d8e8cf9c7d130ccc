-- ===== src/Risk/Tests.antt =====
-- Runs of the risk engine on small tables, over thousandths, and the theorems at those inputs.
use middle_east_geopolitic.Common.Fixed.{thousandths-IsOrdered, thousandths}
use middle_east_geopolitic.Risk.Engine
use middle_east_geopolitic.Common.{
  Elem, refl, ◌++◌, ◌≡◌, false, true, none, [], some, ◌∷◌, Option, String, ℕ,
}
use middle_east_geopolitic.Common.Int.{pos, ℤ}
use middle_east_geopolitic.Risk.Changes.{diff_changed_indicators, changed_codes, prior_record}
use middle_east_geopolitic.Risk.Changes.Exact.{diff_changed_indicators_iff, Names, IsChange}
use middle_east_geopolitic.Risk.Models.{
  ContributionRecord, RiskIndicatorWeight, RiskAssessment, IndicatorDefinition, RiskStore,
  RiskDefinition,
}
use middle_east_geopolitic.Risk.Llm.{model_version_of, get_llm_adjustment, Settings, Llm}
use middle_east_geopolitic.Common.Result.{llm_output, ok, err, Result}
use middle_east_geopolitic.Enums.{
  RiskApprovalStatus, global, inverse, positive, relationship, manual, IndicatorDirection, min_max,
}
use middle_east_geopolitic.Risk.Indicators.{observe, normalize_value, record_observation, Reading}
use middle_east_geopolitic.Risk.Engine.{build, contribution_of, gather, collect, assess, Request}
use middle_east_geopolitic.Risk.Engine.Writes.{
  calculate-PreviousFits, calculate-Written, Written, PreviousFits,
}
use middle_east_geopolitic.Risk.History.{Step, here, next, Reach-IsWellFormed, IsWellFormed}
use middle_east_geopolitic.Risk.Engine.Reproducible.{calculate-reproducible, rerun}
use middle_east_geopolitic.Risk.Engine.Contract.{calculate-IsSound, IsSound}
use middle_east_geopolitic.Risk.Scoring.{trend_of, is_stale, aggregate_contributions}
use middle_east_geopolitic.Risk.Repository.{
  get_latest_assessment, add_observation, get_definition_by_code, get_latest_observation,
  get_indicator, list_weights, get_definition, assessed_for,
}
use middle_east_geopolitic.Risk.Scoring.Missing.{aggregate_contributions-skip}
use middle_east_geopolitic.Common.Rows.{first?, select, latest}

abbrev escalation : RiskDefinition
escalation = record {
  id = 1;
  code = "escalation";
  name = "Escalation";
  scope_types = "relationship" ∷ [];
  ruleset_version = "v1";
}

abbrev strikes : IndicatorDefinition ℤ
strikes = record {
  id = 10;
  code = "strikes";
  name = "Strikes";
  normalization_method = min_max;
  lower_bound = some (pos 0);
  upper_bound = some (pos 10000);
  staleness_hours = some 24;
  active = true;
}

abbrev talks : IndicatorDefinition ℤ
talks = record {
  id = 11;
  code = "talks";
  name = "Talks";
  normalization_method = manual;
  lower_bound = none;
  upper_bound = none;
  staleness_hours = none;
  active = true;
}

abbrev weight_of : ℕ → ℤ → IndicatorDirection → RiskIndicatorWeight ℤ
weight_of indicator w d = record {
  risk_definition_id = 1;
  indicator_definition_id = indicator;
  weight = w;
  direction = d;
}

abbrev start : RiskStore ℤ
start = record {
  definitions = escalation ∷ [];
  weights =
      weight_of 10 (pos 3000) positive
      ∷ weight_of 11 (pos 1000) inverse
      ∷ weight_of 99 (pos 500) positive
      ∷ [];
  indicators = strikes ∷ talks ∷ [];
  observations = [];
  assessments = [];
  review_tasks = [];
}

abbrev reading : String → ℤ → ℕ → Reading ℤ
reading code raw at = record {
  indicator_code = code;
  scope_type = relationship;
  scope_id = 7;
  raw_value = raw;
  confidence = pos 900;
  observed_at = some at;
  fresh = at;
}

abbrev observed : RiskStore ℤ
observed =
    (record_observation 0 (reading "talks" (pos 250) 60)
      (record_observation 0 (reading "strikes" (pos 8000) 50) start).1).1

abbrev cfg : Settings
cfg = record {
  llm_provider = "openai";
  llm_model = "m";
  llm_secondary_model = "n";
  score_delta_threshold = 15;
  agreement_tolerance = 5;
}

-- A model that always asks for more than it may have.
abbrev hawk : Llm ℤ
hawk input = ok (record {
  recommended_adjustment = pos 40;
  rationale = [];
  counter_indicators = [];
  confidence = pos 500;
})

abbrev broken : Llm ℤ
broken input = err llm_output

abbrev ask : Option (Llm ℤ) → ℕ → Request ℤ
ask llm fresh = record {
  risk_definition_id = 1;
  scope_type = relationship;
  scope_id = some 7;
  as_of = some 100;
  llm = llm;
  triggered_by = none;
  persist = true;
  fresh = fresh;
}

abbrev first : Result (RiskAssessment ℤ) × RiskStore ℤ
first = Engine.calculate cfg 100 (ask (some hawk) 500) observed

abbrev or_row : Result (RiskAssessment ℤ) → RiskAssessment ℤ → RiskAssessment ℤ
or_row (ok a) b = a
or_row (err e) b = b

abbrev unscored : RiskAssessment ℤ
unscored = record {
  id = 0;
  risk_definition_id = 0;
  scope_type = global;
  scope_id = none;
  assessed_at = 0;
  base_score = pos 0;
  llm_adjustment = pos 0;
  final_score = pos 0;
  previous_score = none;
  trend = none;
  confidence = pos 0;
  counter_indicators = [];
  contributions = [];
  ruleset_version = "v1";
  model_version = none;
  approval_status = RiskApprovalStatus.pending;
  approved_by = "";
  approved_at = 0;
}

abbrev row : RiskAssessment ℤ
row = or_row first.0 unscored

first_succeeds : first.0 ≡ ok row
unfolding Engine.calculate assess collect get_definition list_weights gather get_indicator
    contribution_of is_stale get_latest_observation get_llm_adjustment build trend_of
    aggregate_contributions record_observation observe normalize_value get_definition_by_code
    add_observation latest select first? get_latest_assessment model_version_of
first_succeeds = refl

-- (3 * 0.8 + 1 * (1 - 0.25)) / 4 is 0.7875, and the model's 40 points count as 10.
first_scores : (row.base_score ≡ pos 79) × (row.final_score ≡ pos 89)
unfolding Engine.calculate assess collect get_definition list_weights gather get_indicator
    contribution_of is_stale get_latest_observation get_llm_adjustment build trend_of
    aggregate_contributions record_observation observe normalize_value get_definition_by_code
    add_observation latest select first? get_latest_assessment model_version_of
first_scores = (refl, refl)

calculate-IsSound_example : IsSound row
calculate-IsSound_example =
    calculate-IsSound thousandths-IsOrdered cfg 100 (ask (some hawk) 500) observed row
      first_succeeds

calculate-reproducible_example :
    (b : RiskAssessment ℤ) × ((Engine.calculate cfg 300
        (rerun (ask (some hawk) 500) row none true 501)
        first.1).0
      ≡ ok b)
    × (b.base_score ≡ row.base_score)
    × (b.confidence ≡ row.confidence)
    × (b.contributions ≡ row.contributions)
calculate-reproducible_example =
    calculate-reproducible cfg cfg 100 300 (ask (some hawk) 500) observed row none true 501
      first_succeeds

calculate-Written_example : Written cfg true observed first.0 first.1
calculate-Written_example = calculate-Written cfg 100 (ask (some hawk) 500) observed

calculate-PreviousFits_example :
    PreviousFits (assessed_for 1 relationship (some 7)) observed.assessments row.previous_score
calculate-PreviousFits_example =
    calculate-PreviousFits cfg 100 (ask (some hawk) 500) observed row first_succeeds

start-IsWellFormed : IsWellFormed thousandths-IsOrdered start
start-IsWellFormed = record {
  observations_in_range = tt;
  assessments_sound = tt;
  weights_unique = ((refl, (refl, tt)), ((refl, tt), (tt, tt)));
}

Reach-IsWellFormed_example : IsWellFormed thousandths-IsOrdered first.1
Reach-IsWellFormed_example = Reach-IsWellFormed thousandths-IsOrdered start-IsWellFormed (
    next
      (next (next here (Step.observe 0 (reading "strikes" (pos 8000) 50) start)) (
        Step.observe 0 (reading "talks" (pos 250) 60)
          (record_observation 0 (reading "strikes" (pos 8000) 50) start).1))
      (Step.calculate cfg 100 (ask (some hawk) 500) observed))

abbrev absent : ContributionRecord ℤ
absent = record {
  indicator_code = "absent";
  indicator_name = "Absent";
  weight = pos 9000;
  direction = positive;
  raw_value = none;
  normalized_value = none;
  contribution = none;
  confidence = none;
  observed_at = none;
  included = false;
  stale = false;
}

aggregate_contributions-skip_example :
    aggregate_contributions (row.contributions ++ (absent ∷ [])) (pos 13000)
    ≡ aggregate_contributions (row.contributions ++ []) (pos 13000)
aggregate_contributions-skip_example =
    aggregate_contributions-skip row.contributions [] absent (pos 13000) refl

abbrev known : ContributionRecord ℤ
known = record absent { normalized_value = some (pos 40000); included = true }

diff_changed_indicators_iff_example :
    (Elem "absent" (diff_changed_indicators (pos 50) (absent ∷ []) (known ∷ []))
      → Names (IsChange (pos 50) (absent ∷ [])) (known ∷ []) "absent")
    × (Names (IsChange (pos 50) (absent ∷ [])) (known ∷ []) "absent"
        → Elem "absent" (diff_changed_indicators (pos 50) (absent ∷ []) (known ∷ [])))
diff_changed_indicators_iff_example =
    diff_changed_indicators_iff (pos 50) absent [] (known ∷ []) "absent" (tt, tt)

newly_known : diff_changed_indicators (pos 50) (absent ∷ []) (known ∷ []) ≡ "absent" ∷ []
unfolding diff_changed_indicators changed_codes prior_record
newly_known = refl
