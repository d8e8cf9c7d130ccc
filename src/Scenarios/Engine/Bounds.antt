-- ===== src/Scenarios/Engine/Bounds.antt =====
-- The range of every scenario assessment.
use middle_east_geopolitic.Common.Float.{clamp_bounds, clamp, lt_asymm, IsOrdered, ◌≼◌, Float}
use middle_east_geopolitic.Scenarios.Engine.{
  get_llm_update, ScenarioLlm, assessment_of, update_scenario,
}
use middle_east_geopolitic.Scenarios.Consistency.{swapped, normalize_probability_range}
use middle_east_geopolitic.Common.{
  inr, inl, Bool-cases, ap, subst, ◌≡◌, List, Option, ℕ, String, arith,
}
use middle_east_geopolitic.Scenarios.Models.{
  ScenarioFamily, ScenarioAssessment, ScenarioStore, Scenario,
}
use middle_east_geopolitic.Common.Result.{ok_inj, not_found, or_raise, bind-ok, ok}
use middle_east_geopolitic.Scenarios.Repository.{get_scenario}

module _ {F : Type 0} ⦃fl : Float F⦄ where
  -- A range of probabilities in per cent, in order.
  abbrev pub IsRange : F × F → Type 0
  IsRange (low, high) = (fl.of_ℕ 0 ≼ low) × (low ≼ high) × (high ≼ fl.of_ℕ 100)

  module _ (o : IsOrdered F) where
    zero_hundred : fl.of_ℕ 0 ≼ fl.of_ℕ 100
    zero_hundred = lt_asymm o (fl.of_ℕ 0) (fl.of_ℕ 100) (o.of_ℕ-lt 0 100 (omega arith))

    swapped-IsRange :
        (low high : F)
        → (fl.of_ℕ 0 ≼ low) × (low ≼ fl.of_ℕ 100)
        → (fl.of_ℕ 0 ≼ high) × (high ≼ fl.of_ℕ 100)
        → IsRange (swapped (low, high))
    swapped-IsRange low high h k = elim (Bool-cases (fl.lt high low)) [
      | inl e ↦ rw e (k.0, lt_asymm o high low e, h.1)
      | inr e ↦ rw e (h.0, e, k.1)
    ]

    pub normalize_probability_range-IsRange :
        (low high : F) → IsRange (normalize_probability_range low high)
    unfolding normalize_probability_range
    normalize_probability_range-IsRange low high =
        swapped-IsRange (clamp (fl.of_ℕ 0) (fl.of_ℕ 100) low) (clamp (fl.of_ℕ 0) (fl.of_ℕ 100) high)
          (clamp_bounds o _ _ low zero_hundred) (clamp_bounds o _ _ high zero_hundred)

    -- Every assessment of a scenario, whatever the model replies, has a range of probabilities in
    -- order and in 0 to 100.
    pub update_scenario-IsRange :
        (version : String) (now : ℕ) (context : Scenario → ℕ → String) (i : ℕ)
        (llm : Option (ScenarioLlm F)) (triggered_by : Option String) (as_of : Option ℕ) (fresh : ℕ)
        (s t : ScenarioStore F) (a : ScenarioAssessment F)
        (ws : List (ScenarioFamily × ScenarioFamily))
        → update_scenario version now context i llm triggered_by as_of fresh s ≡ ok (a, ws, t)
        → IsRange (a.probability_low, a.probability_high)
    unfolding update_scenario assessment_of
    update_scenario-IsRange version now context i llm triggered_by as_of fresh s t a ws h =
        let (c, _, h1) = bind-ok (or_raise (get_scenario i s) not_found) _ h in
        let (r, _, h2) = bind-ok (get_llm_update version llm c _ _) _ h1 in
        subst (λ (x : ScenarioAssessment F). IsRange (x.probability_low, x.probability_high))
          (ap (λ x. x.0) (ok_inj h2))
          (normalize_probability_range-IsRange r.0.probability_low r.0.probability_high)
