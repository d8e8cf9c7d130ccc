-- ===== src/Risk/Engine/Contract.antt =====
-- What every assessment that `calculate` returns satisfies, and what a call does to the tables.
use middle_east_geopolitic.Common.{ℕ, ◌≤◌, ◌≡◌, subst, Option, none, some, arith}
use middle_east_geopolitic.Common.Int.{ℤ, pos, negsuc, ◌+ℤ◌, ◌≤ℤ◌, ◌<ℤ◌, abs_diff}
use middle_east_geopolitic.Common.Float.{Float, IsOrdered, ◌≼◌}
use middle_east_geopolitic.Common.Result.{Result, ok, err}
use middle_east_geopolitic.Enums.{Trend, rising, falling, stable}
use middle_east_geopolitic.Risk.Models.{RiskAssessment, RiskStore}
use middle_east_geopolitic.Risk.Llm.{
  Settings, Llm, LlmInput, Recommendation, Adjustment, clamped, get_llm_adjustment,
}
use middle_east_geopolitic.Risk.Scoring.{
  aggregate_contributions, clamp_score, clamp_adjustment, trend_of,
}
use middle_east_geopolitic.Risk.Scoring.Bounds.{
  clamp_adjustment_bounds, clamp_score_bounds, clamp_score_near, aggregate_contributions-IsScore,
}
use middle_east_geopolitic.Risk.Engine.{Request, Evidence, build, calculate}
use middle_east_geopolitic.Risk.Engine.Steps.{assess-ok, calculate-ok, input_of}

-- A move of more than two points is a trend; without an earlier score there is none.
abbrev pub TrendFits : Option ℤ → ℤ → Option Trend → Type 0
TrendFits none final none = Unit
TrendFits none final (some t) = ⊥
TrendFits (some p) final none = ⊥
TrendFits (some p) final (some rising) = p +ℤ pos 2 <ℤ final
TrendFits (some p) final (some falling) = final +ℤ pos 2 <ℤ p
TrendFits (some p) final (some stable) = abs_diff final p ≤ 2

trend_of-TrendFits : (final : ℤ) (p : Option ℤ) → TrendFits p final (trend_of final p)
unfolding trend_of
trend_of-TrendFits final none = tt
trend_of-TrendFits final (some p) = ground arith

module _ {F : Type 0} ⦃fl : Float F⦄ where
  pub record IsSound (a : RiskAssessment F) : Type 0 where
    pub base_range : (pos 0 ≤ℤ a.base_score) × (a.base_score ≤ℤ pos 100)
    pub adjustment_range : (negsuc 9 ≤ℤ a.llm_adjustment) × (a.llm_adjustment ≤ℤ pos 10)
    pub final_range : (pos 0 ≤ℤ a.final_score) × (a.final_score ≤ℤ pos 100)
    pub final_near_base : abs_diff a.final_score a.base_score ≤ 10
    pub confidence_range : (fl.of_ℕ 0 ≼ a.confidence) × (a.confidence ≼ fl.of_ℕ 1)
    pub trend_fits : TrendFits a.previous_score a.final_score a.trend

  clamped-bounds :
      (cfg : Settings) (r : Result (Recommendation F)) (adj : Adjustment)
      → clamped cfg r ≡ ok adj
      → (negsuc 9 ≤ℤ adj.adjustment) × (adj.adjustment ≤ℤ pos 10)
  clamped-bounds cfg (ok r) adj h =
      let e : clamp_adjustment r.recommended_adjustment ≡ adj.adjustment = cc in
      subst (λ x. (negsuc 9 ≤ℤ x) × (x ≤ℤ pos 10)) e
        (clamp_adjustment_bounds r.recommended_adjustment)
  clamped-bounds cfg (err e) adj h = ground arith

  adjustment_bounds :
      (cfg : Settings) (llm : Option (Llm F)) (input : LlmInput F) (adj : Adjustment)
      → get_llm_adjustment cfg llm input ≡ ok adj
      → (negsuc 9 ≤ℤ adj.adjustment) × (adj.adjustment ≤ℤ pos 10)
  unfolding get_llm_adjustment
  adjustment_bounds cfg none input adj h = ground arith
  adjustment_bounds cfg (some llm) input adj h = clamped-bounds cfg (llm input) adj h

  build-IsSound :
      IsOrdered F
      → (q : Request F) (now : ℕ) (previous : Option ℤ) (e : Evidence F) (adj : Adjustment)
      → (negsuc 9 ≤ℤ adj.adjustment) × (adj.adjustment ≤ℤ pos 10)
      → IsSound (build q now previous e adj)
  unfolding build
  build-IsSound o q now previous e adj b =
      let (l, h, k, m) = aggregate_contributions-IsScore o e.contributions e.total_weight in
      let base = (aggregate_contributions e.contributions e.total_weight).0 in
      record {
        base_range = (l, h);
        adjustment_range = b;
        final_range = clamp_score_bounds (base +ℤ adj.adjustment);
        final_near_base = clamp_score_near base adj.adjustment l h b.0 b.1;
        confidence_range = (k, m);
        trend_fits = trend_of-TrendFits (clamp_score (base +ℤ adj.adjustment)) previous;
      }

  -- Every assessment that `calculate` returns, with any model reply: base and final score lie in
  -- 0 to 100, the model moves the score by 10 points at most, the confidence lies in 0 to 1, and the
  -- trend says how the final score compares with the previous one.
  pub calculate-IsSound :
      IsOrdered F
      → (cfg : Settings) (now : ℕ) (q : Request F) (s : RiskStore F) (a : RiskAssessment F)
      → (calculate cfg now q s).0 ≡ ok a
      → IsSound a
  calculate-IsSound o cfg now q s a h =
      let (e, adj, p, r, eq) = assess-ok cfg now s q a (calculate-ok cfg now s q a h).0 in
      subst IsSound eq
        (build-IsSound o q now _ e adj (adjustment_bounds cfg q.llm (input_of s q e) adj r))
