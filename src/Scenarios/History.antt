-- ===== src/Scenarios/History.antt =====
-- Every history of the scenario register: registrations, updates, archivals and invalidations in any
-- order. An update that raises changes nothing, so it is no step.
pub mod Invariants
use middle_east_geopolitic.Scenarios.Models.{
  ScenarioFamily, ScenarioAssessment, ScenarioStore, ScenarioStatus, Scenario,
}
use middle_east_geopolitic.Common.Float.{Float}
use middle_east_geopolitic.Common.{
  Option, All-append, arith, String, id_eq_sym, ◌++◌, ℕ, false, [], ◌≡◌, if_both, ◌∷◌, All, Bool,
  List,
}
use middle_east_geopolitic.Common.Rows.{update}
use middle_east_geopolitic.Scenarios.Repository.{is_of_family}
use middle_east_geopolitic.Scenarios.Engine.{
  invalidate_scenario, archive_scenario, update_scenario, ScenarioLlm, create_scenario, NewScenario,
}
use middle_east_geopolitic.Common.Rows.Laws.{All-update}
use middle_east_geopolitic.Common.Result.{ok}

module _ {F : Type 0} ⦃fl : Float F⦄ where
  pub data Step : ScenarioStore F → ScenarioStore F → Type 0 where
    register :
        (q : NewScenario) (fresh : ℕ) (s : ScenarioStore F) → Step s (create_scenario q fresh s).1
    assess :
        (version : String) (now : ℕ) (context : Scenario → ℕ → String) (i : ℕ)
        (llm : Option (ScenarioLlm F)) (triggered_by : Option String) (as_of : Option ℕ) (fresh : ℕ)
        (s t : ScenarioStore F) (a : ScenarioAssessment F)
        (ws : List (ScenarioFamily × ScenarioFamily))
        → update_scenario version now context i llm triggered_by as_of fresh s ≡ ok (a, ws, t)
        → Step s t
    archive : (i : ℕ) (s : ScenarioStore F) → Step s (archive_scenario i s)
    invalidate : (i : ℕ) (s : ScenarioStore F) → Step s (invalidate_scenario i s)

  pub data Reach (s : ScenarioStore F) : ScenarioStore F → Type 0 where
    here : Reach s s
    next : {t u : ScenarioStore F} → Reach s t → Step t u → Reach s u

-- Another scenario for the same scope and family.
abbrev pub Apart : Scenario → Scenario → Type 0
Apart c d = is_of_family c.scope_type c.scope_id c.scenario_family d ≡ false

abbrev pub FamiliesUnique : List Scenario → Type 0
FamiliesUnique [] = Unit
FamiliesUnique (c ∷ cs) = All (Apart c) cs × FamiliesUnique cs

abbrev pub with_status : ScenarioStatus → Scenario → Scenario
with_status status c = record c { status = status }

pub update-FamiliesUnique :
    (test : Scenario → Bool) (status : ScenarioStatus) (cs : List Scenario)
    → FamiliesUnique cs
    → FamiliesUnique (update test (with_status status) cs)
unfolding update
update-FamiliesUnique test status [] h = tt
update-FamiliesUnique test status (c ∷ cs) h = (
  if_both (λ (d : Scenario). All (Apart d) (update test (with_status status) cs)) (test c) _ _
      (All-update (Apart (with_status status c)) test (with_status status) (λ a t k. k) cs h.0)
      (All-update (Apart c) test (with_status status) (λ a t k. k) cs h.0),
  update-FamiliesUnique test status cs h.1,
)

-- The test for one key, seen from the other row.
Apart-sym :
    (c d : Scenario) → is_of_family d.scope_type d.scope_id d.scenario_family c ≡ false → Apart c d
Apart-sym c d h = let e = id_eq_sym d.scope_id c.scope_id in ground arith

pub append-FamiliesUnique :
    (cs : List Scenario) (d : Scenario)
    → All (λ c. is_of_family d.scope_type d.scope_id d.scenario_family c ≡ false) cs
    → FamiliesUnique cs
    → FamiliesUnique (cs ++ (d ∷ []))
append-FamiliesUnique [] d a h = (tt, tt)
append-FamiliesUnique (c ∷ cs) d a h = (
  All-append (Apart c) cs (d ∷ []) h.0 (Apart-sym c d a.0, tt),
  append-FamiliesUnique cs d a.1 h.1,
)
