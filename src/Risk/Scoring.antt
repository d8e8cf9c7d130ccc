-- ===== src/Risk/Scoring.antt =====
-- src/mei/application/services/risk_engine.py: the parts of the engine that read no table.
pub mod Bounds
pub mod Missing
use middle_east_geopolitic.Common.{
  ℕ, ◌*◌, ◌-◌, Bool, false, Option, none, some, List, [], ◌∷◌, map, ltb, leb, if◌then◌else◌,
}
use middle_east_geopolitic.Common.Int.{ℤ, pos, negsuc, ◌-ℤ◌, ltb_ℤ, min_ℤ, max_ℤ, abs_diff}
use middle_east_geopolitic.Common.Float.{Float, fle, clamp}
use middle_east_geopolitic.Common.Rows.{select}
use middle_east_geopolitic.Enums.{
  Trend, rising, falling, stable, IndicatorDirection, positive, inverse,
}
use middle_east_geopolitic.Risk.Models.{ContributionRecord}

-- `_is_stale`: the age in hours passes the limit exactly when the age in seconds passes 3600 times it.
unfoldable pub is_stale : ℕ → ℕ → Option ℕ → Bool
is_stale observed_at as_of none = false
is_stale observed_at as_of (some hours) = ltb (3600 * hours) (as_of - observed_at)

-- `max(0, min(100, score))`
abbrev pub clamp_score : ℤ → ℤ
clamp_score x = max_ℤ (pos 0) (min_ℤ (pos 100) x)

-- `max(-10, min(10, adjustment))`
abbrev pub clamp_adjustment : ℤ → ℤ
clamp_adjustment x = max_ℤ (negsuc 9) (min_ℤ (pos 10) x)

-- `_TREND_EPSILON`
abbrev pub trend_epsilon : ℤ
trend_epsilon = pos 2

-- The `trend` of `calculate`, against the previous score if there is one.
unfoldable pub trend_of : ℤ → Option ℤ → Option Trend
trend_of final none = none
trend_of final (some previous) =
    let delta = final -ℤ previous in
    if ltb_ℤ trend_epsilon delta
    then some rising
    else if ltb_ℤ delta (negsuc 1)
    then some falling
    else some stable

-- `should_trigger_for_risk` of multi_model_review.py, whose reason is always the same text.
unfoldable pub should_trigger_for_risk : ℤ → Option ℤ → ℕ → Bool
should_trigger_for_risk final none threshold = false
should_trigger_for_risk final (some previous) threshold = leb threshold (abs_diff final previous)

module _ {F : Type 0} ⦃fl : Float F⦄ where
  -- `if value is not None: total += weight * value`
  abbrev pub add_weighted : F → F → Option F → F
  add_weighted total weight none = total
  add_weighted total weight (some v) = fl.add total (fl.mul weight v)

  -- The loop over the included records, over its two accumulators.
  unfoldable pub weigh : F → F → List (ContributionRecord F) → F × F
  weigh score confidence [] = (score, confidence)
  weigh score confidence (c ∷ cs) =
      weigh (add_weighted score c.weight c.contribution)
        (add_weighted confidence c.weight c.confidence) cs

  abbrev pub included_only : List (ContributionRecord F) → List (ContributionRecord F)
  included_only = select (λ c. c.included)

  -- `round(100 * weighted_score_sum / available_weight)`, and the confidence scaled by the coverage,
  -- both before they are clamped.
  abbrev pub raw_score : List (ContributionRecord F) → F → ℤ
  raw_score included available =
      fl.round (fl.div (fl.mul (fl.of_ℕ 100) (weigh (fl.of_ℕ 0) (fl.of_ℕ 0) included).0) available)

  abbrev pub coverage_ratio : F → F → F
  coverage_ratio available total_weight =
      if fl.lt (fl.of_ℕ 0) total_weight then fl.div available total_weight else fl.of_ℕ 0

  abbrev pub raw_confidence : List (ContributionRecord F) → F → F → F
  raw_confidence included available total_weight =
      fl.mul (fl.div (weigh (fl.of_ℕ 0) (fl.of_ℕ 0) included).1 available)
        (coverage_ratio available total_weight)

  -- The end of `aggregate_contributions`, from the included records.
  unfoldable pub average : List (ContributionRecord F) → F → ℤ × F × F
  average included total_weight =
      let available = fl.sum (map (λ c. c.weight) included) in
      if fle available (fl.of_ℕ 0) then (pos 0, fl.of_ℕ 0, fl.of_ℕ 0) else (
        clamp_score (raw_score included available),
        clamp (fl.of_ℕ 0) (fl.of_ℕ 1) (raw_confidence included available total_weight),
        available,
      )

  -- `aggregate_contributions`: base score, confidence, available weight.
  unfoldable pub aggregate_contributions : List (ContributionRecord F) → F → ℤ × F × F
  unfolding average weigh
  aggregate_contributions contributions total_weight =
      average (included_only contributions) total_weight

  -- `contribution_fraction` of an included observation.
  abbrev pub fraction : IndicatorDirection → F → F
  fraction positive v = v
  fraction inverse v = fl.sub (fl.of_ℕ 1) v
