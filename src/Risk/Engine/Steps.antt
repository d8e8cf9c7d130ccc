-- ===== src/Risk/Engine/Steps.antt =====
-- `calculate` taken apart: what a successful call has gone through.
use middle_east_geopolitic.Common.{ℕ, ◌≡◌, none, arith, inl, inr, if◌then◌else◌}
use middle_east_geopolitic.Common.Float.{Float}
use middle_east_geopolitic.Common.Result.{Error, ok, err, bind-ok, Result-cases}
use middle_east_geopolitic.Risk.Models.{RiskAssessment, RiskStore}
use middle_east_geopolitic.Risk.Llm.{
  Settings, LlmInput, Adjustment, no_adjustment, get_llm_adjustment,
}
use middle_east_geopolitic.Risk.Scoring.{aggregate_contributions}
use middle_east_geopolitic.Risk.Repository.{create_assessment}
use middle_east_geopolitic.Risk.Engine.{
  Request, Evidence, or_else, collect, build, assess, calculate, previous_score_of,
  maybe_trigger_review,
}

module _ {F : Type 0} ⦃fl : Float F⦄ where
  -- What `assess` hands to the model.
  abbrev pub input_of : RiskStore F → Request F → Evidence F → LlmInput F
  input_of s q e = record {
    definition_code = e.definition.code;
    base_score = (aggregate_contributions e.contributions e.total_weight).0;
    contributions = e.contributions;
    previous_score = previous_score_of s q;
  }

  pub assess-ok :
      (cfg : Settings) (now : ℕ) (s : RiskStore F) (q : Request F) (a : RiskAssessment F)
      → assess cfg now s q ≡ ok a
      → (e : Evidence F) × (adj : Adjustment) × (collect s q (or_else q.as_of now) ≡ ok e)
        × (get_llm_adjustment cfg q.llm (input_of s q e) ≡ ok adj)
        × (build q now (previous_score_of s q) e adj ≡ a)
  unfolding assess
  assess-ok cfg now s q a h =
      let (e, p, k) = bind-ok (collect s q (or_else q.as_of now)) _ h in
      let (adj, r, m) = bind-ok (get_llm_adjustment cfg q.llm (input_of s q e)) _ k in
      (e, adj, p, r, cc)

  pub calculate-ok :
      (cfg : Settings) (now : ℕ) (s : RiskStore F) (q : Request F) (a : RiskAssessment F)
      → (calculate cfg now q s).0 ≡ ok a
      → (assess cfg now s q ≡ ok a)
        × ((calculate cfg now q s).1
            ≡ (if q.persist then maybe_trigger_review cfg a (create_assessment a s) else s))
  unfolding calculate
  calculate-ok cfg now s q a h = elim (Result-cases (assess cfg now s q)) [
    | inl (b, e) ↦ ground (arith)
    | inr (x, e) ↦ ground arith
  ]

  pub calculate-err :
      (cfg : Settings) (now : ℕ) (s : RiskStore F) (q : Request F) (x : Error)
      → (calculate cfg now q s).0 ≡ err x
      → (assess cfg now s q ≡ err x) × ((calculate cfg now q s).1 ≡ s)
  unfolding calculate
  calculate-err cfg now s q x h = ground arith

  pub calculate_of_assess :
      (cfg : Settings) (now : ℕ) (s : RiskStore F) (q : Request F) (a : RiskAssessment F)
      → assess cfg now s q ≡ ok a
      → (calculate cfg now q s).0 ≡ ok a
  unfolding calculate
  calculate_of_assess cfg now s q a h = ground arith

  -- Without a model nothing can fail after the evidence is collected.
  pub assess-no_llm :
      (cfg : Settings) (now : ℕ) (s : RiskStore F) (q : Request F) (e : Evidence F)
      → q.llm ≡ none
      → collect s q (or_else q.as_of now) ≡ ok e
      → assess cfg now s q ≡ ok (build q now (previous_score_of s q) e no_adjustment)
  unfolding assess get_llm_adjustment
  assess-no_llm cfg now s q e n h = ground arith
