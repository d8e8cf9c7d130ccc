-- ===== src/Risk/Review.antt =====
-- src/mei/application/services/multi_model_review.py: the shadow review of an assessment by a second
-- model, which reruns `calculate` without persisting it and compares the two final scores.
use middle_east_geopolitic.Risk.Models.{RiskAssessment, RiskStore}
use middle_east_geopolitic.Common.Int.{abs_diff, ℤ}
use middle_east_geopolitic.Common.Float.{Float}
use middle_east_geopolitic.Common.{
  [], ◌∷◌, ◌++◌, none, arith, false, some, ◌≡◌, leb, List, Bool, String, ℕ,
}
use middle_east_geopolitic.Risk.Engine.{or_text, Request, calculate}
use middle_east_geopolitic.Risk.Llm.{Settings, Llm}
use middle_east_geopolitic.Common.Result.{ok, not_found, err, Result}
use middle_east_geopolitic.Risk.Repository.{get_assessment}

-- `classify_agreement`
unfoldable pub classify_agreement : ℤ → ℤ → ℕ → Bool
classify_agreement primary secondary tolerance = leb (abs_diff primary secondary) tolerance

-- src/mei/domain/model_reviews/models.py. `secondary_output_json` repeats fields of the shadow
-- assessment and is left out.
pub record ModelReviewResult : Type 0 where
  pub id : ℕ
  pub subject_id : ℕ
  pub primary_model : String
  pub secondary_model : String
  pub primary_final_score : ℤ
  pub secondary_final_score : ℤ
  pub agreement : Bool
  pub agreement_delta : ℕ

module _ {F : Type 0} ⦃fl : Float F⦄ where
  -- The arguments of the shadow call.
  abbrev pub shadow : RiskAssessment F → Llm F → ℕ → Request F
  shadow primary secondary_llm fresh = record {
    risk_definition_id = primary.risk_definition_id;
    scope_type = primary.scope_type;
    scope_id = primary.scope_id;
    as_of = some primary.assessed_at;
    llm = some secondary_llm;
    triggered_by = some "multi_model_review";
    persist = false;
    fresh = fresh;
  }

  abbrev pub compare : RiskAssessment F → RiskAssessment F → ℕ → ℕ → ModelReviewResult
  compare primary secondary tolerance fresh = record {
    id = fresh;
    subject_id = primary.id;
    primary_model = or_text primary.model_version "deterministic";
    secondary_model = or_text secondary.model_version "deterministic";
    primary_final_score = primary.final_score;
    secondary_final_score = secondary.final_score;
    agreement = classify_agreement primary.final_score secondary.final_score tolerance;
    agreement_delta = abs_diff primary.final_score secondary.final_score;
  }

  -- `review_risk_assessment`, over the risk tables and the table of review results. `fresh` is the id
  -- of the result, and of the shadow row that is never stored.
  unfoldable pub review_risk_assessment :
      Settings
      → ℕ
      → ℕ
      → Llm F
      → ℕ
      → ℕ
      → RiskStore F × List ModelReviewResult
      → Result ModelReviewResult × RiskStore F × List ModelReviewResult
  review_risk_assessment cfg now assessment_id secondary_llm tolerance fresh (s, reviews) =
      elim (get_assessment assessment_id s) [
        | none ↦ (err not_found, s, reviews)
        | some primary ↦
            let (r, s') = calculate cfg now (shadow primary secondary_llm fresh) s in
            elim r [
              | err e ↦ (err e, s', reviews)
              | ok secondary ↦
                  let result = compare primary secondary tolerance fresh in
                  (ok result, s', reviews ++ (result ∷ []))
            ]
      ]

  -- A review of a stored assessment changes no risk table: not the assessments, so not the previous
  -- score of a later call, and not the list of scheduled reviews.
  pub review_risk_assessment-store :
      (cfg : Settings) (now assessment_id : ℕ) (secondary_llm : Llm F) (tolerance fresh : ℕ)
      (s : RiskStore F) (reviews : List ModelReviewResult)
      → (review_risk_assessment cfg now assessment_id secondary_llm tolerance fresh (s, reviews)).1
        ≡ s
  unfolding review_risk_assessment calculate
  review_risk_assessment-store cfg now assessment_id secondary_llm tolerance fresh s reviews =
      ground arith
