-- ===== src/Scenarios/History/Invariants.antt =====
-- What holds after every history of the scenario register.
use middle_east_geopolitic.Scenarios.History.{
  append-FamiliesUnique, update-FamiliesUnique, FamiliesUnique, register, assess, archive,
  invalidate, here, next, Step, Reach,
}
use middle_east_geopolitic.Common.Float.{IsOrdered, Float}
use middle_east_geopolitic.Scenarios.Engine.{
  get_llm_update, new_scenario, ScenarioLlm, NewScenario, assessment_of, invalidate_scenario,
  update_scenario, archive_scenario, create_scenario,
}
use middle_east_geopolitic.Scenarios.Repository.{
  get_scenario, is_of_family, set_status, insert_scenario, get_by_family,
}
use middle_east_geopolitic.Scenarios.Models.{
  invalidated, ScenarioFamily, archived, ScenarioAssessment, Scenario, ScenarioStatus,
  ScenarioStore,
}
use middle_east_geopolitic.Common.{
  ap, List, [], refl, ◌∷◌, inr, All-append, Option, ◌==◌, inl, sym, subst, Option-cases, String,
  ◌≡◌, All, ℕ,
}
use middle_east_geopolitic.Scenarios.Engine.Writes.{update_scenario-appends}
use middle_east_geopolitic.Scenarios.Engine.CarryForward.{or_none-IsStored, IsStoredRow}
use middle_east_geopolitic.Common.Rows.{first?}
use middle_east_geopolitic.Common.Rows.Laws.{first?-none}
use middle_east_geopolitic.Common.Result.{ok_inj, not_found, or_raise, bind-ok, ok}
use middle_east_geopolitic.Scenarios.Engine.Bounds.{normalize_probability_range-IsRange}

module _ {F : Type 0} ⦃fl : Float F⦄ where
  create_scenario-FamiliesUnique :
      (q : NewScenario) (fresh : ℕ) (s : ScenarioStore F)
      → FamiliesUnique s.scenarios
      → FamiliesUnique (create_scenario q fresh s).1.scenarios
  unfolding create_scenario get_by_family insert_scenario
  create_scenario-FamiliesUnique q fresh s h =
      elim (Option-cases
        (first? (is_of_family q.scope_type q.scope_id q.scenario_family) s.scenarios)) [
          | inl e ↦
              rw (e, create_scenario)
                (append-FamiliesUnique s.scenarios (new_scenario q fresh)
                  (first?-none (is_of_family q.scope_type q.scope_id q.scenario_family) s.scenarios
                    e)
                  h)
          | inr (c, e) ↦ rw (e, create_scenario) h
        ]

  create_scenario-assessments :
      (q : NewScenario) (fresh : ℕ) (s : ScenarioStore F)
      → (create_scenario q fresh s).1.assessments ≡ s.assessments
  unfolding create_scenario insert_scenario
  create_scenario-assessments q fresh s =
      elim (Option-cases (get_by_family q.scope_type q.scope_id q.scenario_family s)) [
        | inl e ↦ rw (e, create_scenario) refl
        | inr (c, e) ↦ rw (e, create_scenario) refl
      ]

  module _ (o : IsOrdered F) where
    -- Every stored assessment has the form that updates store, with its range in order and in 0 to 100,
    -- and no two scenarios are for the same scope and family.
    pub record IsRegister (s : ScenarioStore F) : Type 0 where
      pub assessments_stored : All IsStoredRow s.assessments
      pub families_unique : FamiliesUnique s.scenarios

    update_scenario-IsStoredRow :
        (version : String) (now : ℕ) (context : Scenario → ℕ → String) (i : ℕ)
        (llm : Option (ScenarioLlm F)) (triggered_by : Option String) (as_of : Option ℕ) (fresh : ℕ)
        (s t : ScenarioStore F) (a : ScenarioAssessment F)
        (ws : List (ScenarioFamily × ScenarioFamily))
        → update_scenario version now context i llm triggered_by as_of fresh s ≡ ok (a, ws, t)
        → IsStoredRow a
    unfolding update_scenario assessment_of
    update_scenario-IsStoredRow version now context i llm triggered_by as_of fresh s t a ws h =
        let (c, _, h1) = bind-ok (or_raise (get_scenario i s) not_found) _ h in
        let (r, _, h2) = bind-ok (get_llm_update version llm c _ _) _ h1 in
        subst IsStoredRow (ap (λ x. x.0) (ok_inj h2)) (
          normalize_probability_range-IsRange o r.0.probability_low r.0.probability_high,
          or_none-IsStored r.0.expected_actor_behavior,
          or_none-IsStored r.0.military_consequences,
          or_none-IsStored r.0.economic_consequences,
          or_none-IsStored r.0.humanitarian_consequences,
        )

    set_status-IsRegister :
        (i : ℕ) (status : ScenarioStatus) (s : ScenarioStore F)
        → IsRegister s
        → IsRegister (set_status i status s)
    unfolding set_status
    set_status-IsRegister i status s h = record {
      assessments_stored = h.assessments_stored;
      families_unique =
          update-FamiliesUnique (λ (c : Scenario). c.id == i) status s.scenarios h.families_unique;
    }

    Step-IsRegister : {s t : ScenarioStore F} → Step s t → IsRegister s → IsRegister t
    unfolding archive_scenario invalidate_scenario
    Step-IsRegister (register q fresh s) h = record {
      assessments_stored = rw (create_scenario-assessments q fresh s) h.assessments_stored;
      families_unique = create_scenario-FamiliesUnique q fresh s h.families_unique;
    }
    Step-IsRegister (assess version now context i llm by as_of fresh s t a ws e) h =
        let (p, _, _) =
          update_scenario-appends version now context i llm by as_of fresh s t a ws e in
        subst IsRegister (sym p) (record {
          assessments_stored =
              All-append IsStoredRow s.assessments (a ∷ []) h.assessments_stored (
                update_scenario-IsStoredRow version now context i llm by as_of fresh s t a ws e,
                tt,
              );
          families_unique = h.families_unique;
        })
    Step-IsRegister (archive i s) h = set_status-IsRegister i archived s h
    Step-IsRegister (invalidate i s) h = set_status-IsRegister i invalidated s h

    -- In every history of registrations, updates, archivals and invalidations, where it holds so far,
    -- every stored assessment has its range in order and in 0 to 100, and its texts on the behavior of
    -- actors and the three kinds of consequences are absent rather than empty; and no two scenarios are for the same scope and family.
    pub Reach-IsRegister : {s t : ScenarioStore F} → IsRegister s → Reach s t → IsRegister t
    Reach-IsRegister h here = h
    Reach-IsRegister h (next r st) = Step-IsRegister st (Reach-IsRegister h r)
