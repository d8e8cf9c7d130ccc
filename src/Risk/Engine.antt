-- ===== src/Risk/Engine.antt =====
-- src/mei/application/services/risk_engine.py: `RiskEngine.calculate`, over the tables of a `RiskStore`.
pub mod Steps
pub mod Contract
pub mod Writes
pub mod Reproducible
use middle_east_geopolitic.Common.{
  true, ℕ, String, Bool, false, not, ◌&&◌, Option, none, some, List, [], ◌∷◌, ◌++◌, str_eq,
  str_elem, if◌then◌else◌,
}
use middle_east_geopolitic.Common.Int.{ℤ, ◌+ℤ◌}
use middle_east_geopolitic.Common.Float.{Float}
use middle_east_geopolitic.Common.Result.{not_found, validation, Result, ok, err, ◌>>=◌}
use middle_east_geopolitic.Enums.{ScopeType, scope_value, RiskApprovalStatus}
use middle_east_geopolitic.Risk.Models.{
  RiskDefinition, RiskIndicatorWeight, IndicatorDefinition, IndicatorObservation,
  ContributionRecord, RiskAssessment, RiskStore,
}
use middle_east_geopolitic.Risk.Repository.{
  get_definition, get_indicator, list_weights, get_latest_observation, get_latest_assessment,
  create_assessment,
}
use middle_east_geopolitic.Risk.Llm.{Settings, Llm, Adjustment, get_llm_adjustment}
use middle_east_geopolitic.Risk.Scoring.{
  should_trigger_for_risk, is_stale, clamp_score, trend_of, aggregate_contributions, fraction,
}

-- The arguments of `calculate`, for which the clock is read once. `fresh` is the id that `uuid7` draws for the new row.
pub record Request (F : Type 0) : Type 0 where
  pub risk_definition_id : ℕ
  pub scope_type : ScopeType
  pub scope_id : Option ℕ
  pub as_of : Option ℕ
  pub llm : Option (Llm F)
  pub triggered_by : Option String
  pub persist : Bool
  pub fresh : ℕ

-- `a or b`
abbrev pub or_else {ℓ} : {A : Type ℓ} → Option A → A → A
or_else none b = b
or_else (some a) b = a

-- `text or b`: an empty text counts as `None`.
abbrev pub or_text : Option String → String → String
or_text none b = b
or_text (some s) b = if str_eq s "" then b else s

-- The inputs of a score, read from the tables.
pub record Evidence (F : Type 0) : Type 0 where
  pub definition : RiskDefinition
  pub contributions : List (ContributionRecord F)
  pub total_weight : F

module _ {F : Type 0} ⦃fl : Float F⦄ where
  abbrev observation_of :
      Option ℕ → ℕ → ScopeType → ℕ → RiskStore F → Option (IndicatorObservation F)
  observation_of none indicator scope_type as_of s = none
  observation_of (some scope_id) indicator scope_type as_of s =
      get_latest_observation indicator scope_type scope_id as_of s

  -- The record that the loop of `calculate` appends for one weight row and its indicator.
  unfoldable pub contribution_of :
      RiskIndicatorWeight F
      → IndicatorDefinition F
      → Option (IndicatorObservation F)
      → ℕ
      → ContributionRecord F
  unfolding is_stale
  contribution_of w indicator none as_of = record {
    indicator_code = indicator.code;
    indicator_name = indicator.name;
    weight = w.weight;
    direction = w.direction;
    raw_value = none;
    normalized_value = none;
    contribution = none;
    confidence = none;
    observed_at = none;
    included = false;
    stale = false;
  }
  contribution_of w indicator (some o) as_of =
      let stale = is_stale o.observed_at as_of indicator.staleness_hours in
      record {
        indicator_code = indicator.code;
        indicator_name = indicator.name;
        weight = w.weight;
        direction = w.direction;
        raw_value = some o.raw_value;
        normalized_value = some o.normalized_value;
        contribution = if stale then none else some (fraction w.direction o.normalized_value);
        confidence = some o.confidence;
        observed_at = some o.observed_at;
        included = not stale;
        stale = stale;
      }

  -- The loop over the weight rows, with `total_weight`. A row whose indicator is gone is skipped.
  unfoldable pub gather :
      RiskStore F
      → ScopeType
      → Option ℕ
      → ℕ
      → List (RiskIndicatorWeight F)
      → F
      → List (ContributionRecord F) × F
  gather s scope_type scope_id as_of [] total = ([], total)
  gather s scope_type scope_id as_of (w ∷ ws) total =
      elim (get_indicator w.indicator_definition_id s) [
        | none ↦ gather s scope_type scope_id as_of ws total
        | some indicator ↦
            let (cs, total') = gather s scope_type scope_id as_of ws (fl.add total w.weight) in
            (
              contribution_of w indicator (observation_of scope_id indicator.id scope_type as_of s)
                    as_of
                  ∷ cs,
              total',
            )
      ]

  -- The three refusals of `calculate`, then the evidence from the loop over the weight rows.
  abbrev pub checked :
      Option RiskDefinition
      → String
      → List (RiskIndicatorWeight F)
      → (List (RiskIndicatorWeight F) → List (ContributionRecord F) × F)
      → Result (Evidence F)
  checked none scope ws loop = err not_found
  checked (some definition) scope [] loop = err validation
  checked (some definition) scope (w ∷ ws) loop =
      if str_elem scope definition.scope_types
      then ok (record {
        definition = definition;
        contributions = (loop (w ∷ ws)).0;
        total_weight = (loop (w ∷ ws)).1;
      })
      else err validation

  -- `calculate` up to `aggregate_contributions`.
  unfoldable pub collect : RiskStore F → Request F → ℕ → Result (Evidence F)
  collect s q assessed_at =
      checked (get_definition q.risk_definition_id s) (scope_value q.scope_type)
        (list_weights q.risk_definition_id s)
        (λ ws. gather s q.scope_type q.scope_id assessed_at ws (fl.of_ℕ 0))

  -- `previous.final_score if previous is not None else None`
  abbrev pub final_of : Option (RiskAssessment F) → Option ℤ
  final_of none = none
  final_of (some a) = some a.final_score

  abbrev pub previous_score_of : RiskStore F → Request F → Option ℤ
  previous_score_of s q =
      final_of (get_latest_assessment q.risk_definition_id q.scope_type q.scope_id none s)

  -- The row that is built at the end, from the evidence and the model's adjustment.
  unfoldable pub build : Request F → ℕ → Option ℤ → Evidence F → Adjustment → RiskAssessment F
  unfolding trend_of
  build q now previous e adj =
      let (base, confidence, available) = aggregate_contributions e.contributions e.total_weight in
      let final = clamp_score (base +ℤ adj.adjustment) in
      record {
        id = q.fresh;
        risk_definition_id = q.risk_definition_id;
        scope_type = q.scope_type;
        scope_id = q.scope_id;
        assessed_at = or_else q.as_of now;
        base_score = base;
        llm_adjustment = adj.adjustment;
        final_score = final;
        previous_score = previous;
        trend = trend_of final previous;
        confidence = confidence;
        counter_indicators = adj.counter_indicators;
        contributions = e.contributions;
        ruleset_version = e.definition.ruleset_version;
        model_version = adj.model_version;
        approval_status = RiskApprovalStatus.approved;
        approved_by = or_text q.triggered_by "system";
        approved_at = now;
      }

  -- `calculate` up to the writes.
  unfoldable pub assess : Settings → ℕ → RiskStore F → Request F → Result (RiskAssessment F)
  assess cfg now s q = do
    e ← collect s q (or_else q.as_of now)
    let previous = previous_score_of s q
    adj ← get_llm_adjustment cfg q.llm (record {
      definition_code = e.definition.code;
      base_score = (aggregate_contributions e.contributions e.total_weight).0;
      contributions = e.contributions;
      previous_score = previous;
    })
    ok (build q now previous e adj)

  -- `_maybe_trigger_multi_model_review`: an empty setting turns the feature off.
  unfoldable pub maybe_trigger_review : Settings → RiskAssessment F → RiskStore F → RiskStore F
  unfolding should_trigger_for_risk
  maybe_trigger_review cfg a s =
      if not (str_eq cfg.llm_secondary_model "")
        && should_trigger_for_risk a.final_score a.previous_score cfg.score_delta_threshold
      then record s { review_tasks = s.review_tasks ++ (a.id ∷ []) }
      else s

  -- The end of `calculate`: the write, unless the call failed or was told not to persist.
  abbrev pub finish :
      Settings
      → Bool
      → RiskStore F
      → Result (RiskAssessment F)
      → Result (RiskAssessment F) × RiskStore F
  finish cfg persist s (err e) = (err e, s)
  finish cfg false s (ok a) = (ok a, s)
  finish cfg true s (ok a) = (ok a, maybe_trigger_review cfg a (create_assessment a s))

  -- `calculate`: nothing is written before the assessment is complete.
  unfoldable pub calculate :
      Settings → ℕ → Request F → RiskStore F → Result (RiskAssessment F) × RiskStore F
  calculate cfg now q s = finish cfg q.persist s (assess cfg now s q)
