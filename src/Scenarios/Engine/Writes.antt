-- ===== src/Scenarios/Engine/Writes.antt =====
-- What the calls on the scenario register store.
use middle_east_geopolitic.Scenarios.Engine.{
  new_scenario, get_llm_update, ScenarioLlm, NewScenario, assessment_of, update_scenario,
  create_scenario,
}
use middle_east_geopolitic.Common.Float.{Float}
use middle_east_geopolitic.Scenarios.Repository.{
  get_scenario, is_of_family, insert_assessment, insert_scenario, get_by_family,
}
use middle_east_geopolitic.Common.{
  none, if◌then◌else◌, ap, id_eq_refl, ◌∙◌, arith, true, some, refl, subst, [], ◌∷◌, ◌++◌, inr, inl,
  List, Option-cases, ◌≡◌, Option, String, ℕ,
}
use middle_east_geopolitic.Scenarios.Models.{
  ScenarioFamily, ScenarioAssessment, Scenario, ScenarioStore,
}
use middle_east_geopolitic.Common.Rows.{first?}
use middle_east_geopolitic.Common.Result.{ok_inj, not_found, or_raise, bind-ok, ok}
use middle_east_geopolitic.Risk.Engine.{or_else}
use middle_east_geopolitic.Common.Rows.Laws.{first?-append_none}

new_scenario-is_of_family :
    (q : NewScenario) (fresh : ℕ)
    → is_of_family q.scope_type q.scope_id q.scenario_family (new_scenario q fresh) ≡ true
new_scenario-is_of_family q fresh = ground (arith, id_eq_refl q.scope_id)

module _ {F : Type 0} where
  create_scenario-found :
      (q : NewScenario) (fresh : ℕ) (s : ScenarioStore F) (c : Scenario)
      → get_by_family q.scope_type q.scope_id q.scenario_family s ≡ some c
      → create_scenario q fresh s ≡ (c, s)
  unfolding create_scenario
  create_scenario-found q fresh s c e = rw (e, create_scenario) refl

  create_scenario-there :
      (q : NewScenario) (fresh : ℕ) (s : ScenarioStore F)
      → get_by_family q.scope_type q.scope_id q.scenario_family (create_scenario q fresh s).1
        ≡ some (create_scenario q fresh s).0
  unfolding create_scenario get_by_family insert_scenario first?
  create_scenario-there q fresh s =
      let test = is_of_family q.scope_type q.scope_id q.scenario_family in
      elim (Option-cases (first? test s.scenarios)) [
        | inl e ↦
            let h = first?-append_none test s.scenarios (new_scenario q fresh ∷ []) e in
            let k = new_scenario-is_of_family q fresh in
            rw (e, create_scenario)
              (h ∙ ap (λ b. if b then some (new_scenario q fresh) else none) k)
        | inr (x, e) ↦ rw (e, create_scenario) e
      ]

  -- A second `create_scenario` for the same scope and family returns the first scenario, whatever its
  -- other arguments are, and stores nothing.
  pub create_scenario-again :
      (q q' : NewScenario) (fresh fresh' : ℕ) (s : ScenarioStore F)
      → q'.scope_type ≡ q.scope_type
      → q'.scope_id ≡ q.scope_id
      → q'.scenario_family ≡ q.scenario_family
      → create_scenario q' fresh' (create_scenario q fresh s).1 ≡ create_scenario q fresh s
  create_scenario-again q q' fresh fresh' s a b c =
      let (x, t) = create_scenario q fresh s in
      create_scenario-found q' fresh' (create_scenario q fresh s).1 (create_scenario q fresh s).0
        (rw (a, b, c) (create_scenario-there q fresh s))

module _ {F : Type 0} ⦃fl : Float F⦄ where
  -- An update that succeeds appends the assessment that it returns, of that scenario and as of that
  -- time, and leaves the scenarios and all earlier assessments as they are.
  pub update_scenario-appends :
      (version : String) (now : ℕ) (context : Scenario → ℕ → String) (i : ℕ)
      (llm : Option (ScenarioLlm F)) (triggered_by : Option String) (as_of : Option ℕ) (fresh : ℕ)
      (s t : ScenarioStore F) (a : ScenarioAssessment F)
      (ws : List (ScenarioFamily × ScenarioFamily))
      → update_scenario version now context i llm triggered_by as_of fresh s ≡ ok (a, ws, t)
      → (t ≡ record s { assessments = s.assessments ++ (a ∷ []) })
        × (a.scenario_id ≡ i)
        × (a.assessed_at ≡ or_else as_of now)
  unfolding update_scenario assessment_of insert_assessment
  update_scenario-appends version now context i llm triggered_by as_of fresh s t a ws h =
      let (c, _, h1) = bind-ok (or_raise (get_scenario i s) not_found) _ h in
      let (r, _, h2) = bind-ok (get_llm_update version llm c _ _) _ h1 in
      let p = ok_inj h2 in
      subst
        (λ (x : ScenarioAssessment F × List (ScenarioFamily × ScenarioFamily) × ScenarioStore F).
          (x.2 ≡ record s { assessments = s.assessments ++ (x.0 ∷ []) })
          × (x.0.scenario_id ≡ i)
          × (x.0.assessed_at ≡ or_else as_of now))
        p (refl, refl, refl)
