-- ===== src/Risk/Indicators.antt =====
-- src/mei/application/services/indicators.py: normalisation of a raw reading, and
-- `IndicatorService.record_observation`.
pub mod Bounds
use middle_east_geopolitic.Common.{
  ℕ, String, Bool, true, false, Option, none, some, ◌≡◌, if◌then◌else◌,
}
use middle_east_geopolitic.Common.Float.{Float, feq, clamp}
use middle_east_geopolitic.Common.Result.{Error, validation, not_found, Result, ok, err, ◌>>=◌}
use middle_east_geopolitic.Enums.{ScopeType, IndicatorNormalizationMethod, boolean, manual, min_max}
use middle_east_geopolitic.Risk.Models.{IndicatorDefinition, IndicatorObservation, RiskStore}
use middle_east_geopolitic.Risk.Repository.{get_definition_by_code, add_observation}

-- The arguments of `record_observation`; `fresh` is the id of the new row.
pub record Reading (F : Type 0) : Type 0 where
  pub indicator_code : String
  pub scope_type : ScopeType
  pub scope_id : ℕ
  pub raw_value : F
  pub confidence : F
  pub observed_at : Option ℕ
  pub fresh : ℕ

module _ {F : Type 0} ⦃fl : Float F⦄ where
  -- `max(0.0, min(1.0, x))`
  abbrev pub unit_clamp : F → F
  unit_clamp x = clamp (fl.of_ℕ 0) (fl.of_ℕ 1) x

  unfoldable pub normalize_value : F → IndicatorNormalizationMethod → Option F → Option F → Result F
  normalize_value raw boolean lower upper =
      ok (if feq raw (fl.of_ℕ 0) then fl.of_ℕ 0 else fl.of_ℕ 1)
  normalize_value raw manual lower upper = ok (unit_clamp raw)
  normalize_value raw min_max (some lower) (some upper) =
      if feq upper lower
      then err validation
      else ok (unit_clamp (fl.div (fl.sub raw lower) (fl.sub upper lower)))
  normalize_value raw min_max none upper = err validation
  normalize_value raw min_max (some lower) none = err validation

  abbrev pub observation_row : ℕ → Reading F → ℕ → F → IndicatorObservation F
  observation_row now r indicator normalized = record {
    id = r.fresh;
    indicator_id = indicator;
    scope_type = r.scope_type;
    scope_id = r.scope_id;
    observed_at = elim r.observed_at [ none ↦ now | some t ↦ t ];
    raw_value = r.raw_value;
    normalized_value = normalized;
    confidence = unit_clamp r.confidence;
  }

  -- `record_observation` up to the write.
  unfoldable pub observe : ℕ → Reading F → RiskStore F → Result (IndicatorObservation F)
  observe now r s = elim (get_definition_by_code r.indicator_code s) [
    | none ↦ err not_found
    | some d ↦
        normalize_value r.raw_value d.normalization_method d.lower_bound d.upper_bound >>= λ v.
        ok (observation_row now r d.id v)
  ]

  unfoldable pub record_observation :
      ℕ → Reading F → RiskStore F → Result (IndicatorObservation F) × RiskStore F
  record_observation now r s = elim (observe now r s) [
    | err e ↦ (err e, s)
    | ok o ↦ (ok o, add_observation o s)
  ]
