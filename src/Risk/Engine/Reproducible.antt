-- ===== src/Risk/Engine/Reproducible.antt =====
-- A base score depends on the indicator tables alone: a rerun over the same history gives it again.
use mathlib.Core.Path.{fun_ext}
use middle_east_geopolitic.Common.{
  String, Bool, ℕ, ◌≡◌, refl, sym, ◌∙◌, ap, Option, none, some, List, [], ◌∷◌, arith,
}
use middle_east_geopolitic.Common.Float.{Float}
use middle_east_geopolitic.Common.Result.{ok}
use middle_east_geopolitic.Enums.{ScopeType, scope_value}
use middle_east_geopolitic.Risk.Models.{RiskIndicatorWeight, RiskAssessment, RiskStore}
use middle_east_geopolitic.Risk.Repository.{
  get_definition, get_indicator, list_weights, get_latest_observation, create_assessment,
}
use middle_east_geopolitic.Risk.Scoring.{aggregate_contributions}
use middle_east_geopolitic.Common.Int.{ℤ}
use middle_east_geopolitic.Risk.Llm.{Settings, Adjustment, no_adjustment}
use middle_east_geopolitic.Risk.Engine.{
  Request, Evidence, or_else, gather, collect, build, calculate, maybe_trigger_review,
  previous_score_of, checked,
}
use middle_east_geopolitic.Risk.Engine.Steps.{
  assess-ok, calculate-ok, calculate_of_assess, assess-no_llm,
}

module _ {F : Type 0} ⦃fl : Float F⦄ where
  -- The store with other assessments and other scheduled reviews.
  abbrev pub with_results : RiskStore F → List (RiskAssessment F) → List ℕ → RiskStore F
  with_results s rows ts = record s { assessments = rows; review_tasks = ts }

  gather-with_results :
      (s : RiskStore F) (rows : List (RiskAssessment F)) (ts : List ℕ) (scope_type : ScopeType)
      (scope_id : Option ℕ) (t : ℕ) (ws : List (RiskIndicatorWeight F)) (total : F)
      → gather (with_results s rows ts) scope_type scope_id t ws total
        ≡ gather s scope_type scope_id t ws total
  unfolding gather get_indicator get_latest_observation
  gather-with_results s rows ts scope_type none t [] total = refl
  gather-with_results s rows ts scope_type (some i) t [] total = refl
  gather-with_results s rows ts scope_type none t (w ∷ ws) total = ground (
    arith,
    gather-with_results s rows ts scope_type none t ws total,
    gather-with_results s rows ts scope_type none t ws (fl.add total w.weight),
  )
  gather-with_results s rows ts scope_type (some i) t (w ∷ ws) total = ground (
    arith,
    gather-with_results s rows ts scope_type (some i) t ws total,
    gather-with_results s rows ts scope_type (some i) t ws (fl.add total w.weight),
  )

  collect-with_results :
      (s : RiskStore F) (rows : List (RiskAssessment F)) (ts : List ℕ) (q : Request F) (t : ℕ)
      → collect (with_results s rows ts) q t ≡ collect s q t
  unfolding collect get_definition list_weights
  collect-with_results s rows ts q t =
      ap
        (checked (get_definition q.risk_definition_id s) (scope_value q.scope_type)
          (list_weights q.risk_definition_id s))
        (fun_ext (λ ws. gather-with_results s rows ts q.scope_type q.scope_id t ws (fl.of_ℕ 0)))

  -- A call touches no table but the assessments, and the list of scheduled reviews.
  pub calculate-with_results :
      (cfg : Settings) (now : ℕ) (q : Request F) (s : RiskStore F)
      → (rows : List (RiskAssessment F)) × (ts : List ℕ) × ((calculate cfg now q s).1
          ≡ with_results s rows ts)
  unfolding calculate maybe_trigger_review create_assessment
  calculate-with_results cfg now q s =
      ((calculate cfg now q s).1.assessments, (calculate cfg now q s).1.review_tasks, ground arith)

  -- A call for the same risk and scope, as of the time of an assessment, without a model.
  abbrev pub rerun : Request F → RiskAssessment F → Option String → Bool → ℕ → Request F
  rerun q a triggered_by persist fresh = record {
    risk_definition_id = q.risk_definition_id;
    scope_type = q.scope_type;
    scope_id = q.scope_id;
    as_of = some a.assessed_at;
    llm = none;
    triggered_by = triggered_by;
    persist = persist;
    fresh = fresh;
  }

  collect-rerun :
      (cfg : Settings) (now : ℕ) (q : Request F) (s : RiskStore F) (a : RiskAssessment F)
      (triggered_by : Option String) (persist : Bool) (fresh : ℕ) (e : Evidence F)
      → collect s q a.assessed_at ≡ ok e
      → collect (calculate cfg now q s).1 (rerun q a triggered_by persist fresh) a.assessed_at
        ≡ ok e
  unfolding collect
  collect-rerun cfg now q s a triggered_by persist fresh e h =
      let (rows, ts, st) = calculate-with_results cfg now q s in
      rw st (collect-with_results s rows ts q a.assessed_at ∙ h)

  assessed_at-build :
      (q : Request F) (now : ℕ) (previous : Option ℤ) (e : Evidence F) (adj : Adjustment)
      → (or_else q.as_of now ≡ (build q now previous e adj).assessed_at)
        × ((aggregate_contributions e.contributions e.total_weight).0
            ≡ (build q now previous e adj).base_score)
        × ((aggregate_contributions e.contributions e.total_weight).1
            ≡ (build q now previous e adj).confidence)
        × (e.contributions ≡ (build q now previous e adj).contributions)
  unfolding build
  assessed_at-build q now previous e adj = (refl, refl, refl, refl)

  -- After a successful call, a call without a model for the same risk and scope, as of the same time,
  -- succeeds whenever it is made and whatever the first call's model and settings were, with the same
  -- base score, confidence and contributions.
  pub calculate-reproducible :
      (cfg cfg' : Settings) (now now' : ℕ) (q : Request F) (s : RiskStore F) (a : RiskAssessment F)
      (triggered_by : Option String) (persist : Bool) (fresh : ℕ)
      → (calculate cfg now q s).0 ≡ ok a
      → (b : RiskAssessment F) × ((calculate cfg' now'
            (rerun q a triggered_by persist fresh)
            (calculate cfg now q s).1).0
          ≡ ok b)
        × (b.base_score ≡ a.base_score)
        × (b.confidence ≡ a.confidence)
        × (b.contributions ≡ a.contributions)
  calculate-reproducible cfg cfg' now now' q s a triggered_by persist fresh h =
      let q' = rerun q a triggered_by persist fresh in
      let s' = (calculate cfg now q s).1 in
      let (e, adj, p, r, eq) = assess-ok cfg now s q a (calculate-ok cfg now s q a h).0 in
      let (f₁, f₂, f₃, f₄) = assessed_at-build q now (previous_score_of s q) e adj in
      let t : or_else q.as_of now ≡ a.assessed_at =
        f₁ ∙ ap (λ (x : RiskAssessment F). x.assessed_at) eq in
      let b = build q' now' (previous_score_of s' q') e no_adjustment in
      let (g₁, g₂, g₃, g₄) = assessed_at-build q' now' (previous_score_of s' q') e no_adjustment in
      (
        b,
        calculate_of_assess cfg' now' s' q' b (
            assess-no_llm cfg' now' s' q' e refl
              (collect-rerun cfg now q s a triggered_by persist fresh e (rw t at p))),
        sym g₂ ∙ f₂ ∙ ap (λ (x : RiskAssessment F). x.base_score) eq,
        sym g₃ ∙ f₃ ∙ ap (λ (x : RiskAssessment F). x.confidence) eq,
        sym g₄ ∙ f₄ ∙ ap (λ (x : RiskAssessment F). x.contributions) eq,
      )
