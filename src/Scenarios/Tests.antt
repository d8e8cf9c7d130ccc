-- ===== src/Scenarios/Tests.antt =====
-- Runs of the scenario register on small tables, over thousandths, and the theorems at those inputs.
use middle_east_geopolitic.Scenarios.History
use middle_east_geopolitic.Common.Fixed.{thousandths}
use middle_east_geopolitic.Scenarios.Models.{
  managed_confrontation, severity, regional_escalation, ScenarioFamily, systemic_regional_war,
  controlled_deescalation, ScenarioStore, ScenarioAssessment, Scenario,
}
use middle_east_geopolitic.Scenarios.Engine.{
  sibling_ranges, log_family_consistency, new_scenario, get_llm_update, ScenarioUpdate,
  create_scenario, assessment_of, NewScenario, update_scenario,
}
use middle_east_geopolitic.Common.{
  subst, true, ltb, refl, [], String, some, none, List, ℕ, Elem, ◌≡◌,
}
use middle_east_geopolitic.Scenarios.Consistency.Gaps.{check_family_consistency_complete, Gap}
use middle_east_geopolitic.Scenarios.Repository.{
  get_by_family, list_by_scope, insert_assessment, insert_scenario, latest_assessment, get_scenario,
}
use middle_east_geopolitic.Scenarios.Engine.Bounds.{update_scenario-IsRange, IsRange}
use middle_east_geopolitic.Scenarios.Consistency.{
  warn_pairs, present, check_family_consistency, put, normalize_probability_range, Ranges,
}
use middle_east_geopolitic.Scenarios.Engine.Writes.{create_scenario-again}
use middle_east_geopolitic.Enums.{relationship}
use middle_east_geopolitic.Common.Int.{pos, ℤ}
use middle_east_geopolitic.Common.Rows.{select, latest, first?}
use middle_east_geopolitic.Scenarios.Engine.CarryForward.{
  update_scenario-SameView, SameView, IsStoredRow,
}
use middle_east_geopolitic.Common.Fixed.{thousandths-IsOrdered}
use middle_east_geopolitic.Risk.Engine.{or_else}
use middle_east_geopolitic.Common.Result.{ok}
use middle_east_geopolitic.Scenarios.History.Invariants.{Reach-IsRegister, IsRegister}

abbrev escalation : NewScenario
escalation = record {
  name = "Escalation";
  scope_type = relationship;
  scope_id = some 7;
  scenario_family = regional_escalation;
  time_horizon = "90d";
  description = none;
}

abbrev renamed : NewScenario
renamed = record {
  name = "Escalation, again";
  scope_type = relationship;
  scope_id = some 7;
  scenario_family = regional_escalation;
  time_horizon = "30d";
  description = none;
}

abbrev empty : ScenarioStore ℤ
empty = record { scenarios = []; assessments = [] }

abbrev registered : ScenarioStore ℤ
registered = insert_scenario (new_scenario escalation 1) empty

create_scenario-again_example :
    create_scenario renamed 2 (create_scenario escalation 1 empty).1
    ≡ create_scenario escalation 1 empty
create_scenario-again_example = create_scenario-again escalation renamed 1 2 empty refl refl refl

-- A reply whose bounds are out of range and out of order.
abbrev reply : ScenarioUpdate ℤ
reply = record {
  probability_low = pos 120000;
  probability_high = pos 30000;
  confidence = pos 500;
  assumptions = [];
  trigger_events = [];
  leading_indicators = [];
  expected_actor_behavior = "";
  military_consequences = "";
  economic_consequences = "";
  humanitarian_consequences = "";
  invalidation_criteria = [];
  explanation_of_change = "first";
}

abbrev context : Scenario → ℕ → String
context c t = "no events"

abbrev first_row : ScenarioAssessment ℤ
first_row = assessment_of 3 1 50 50 none (reply, some "model")

abbrev assessed : ScenarioStore ℤ
assessed = insert_assessment first_row registered

first_update :
    update_scenario "model" 50 context 1 (some (λ c a t. ok reply)) none none 3 registered
    ≡ ok (first_row, [], assessed)
unfolding update_scenario get_scenario first? latest_assessment latest select get_llm_update
    assessment_of normalize_probability_range insert_assessment insert_scenario
    log_family_consistency check_family_consistency sibling_ranges list_by_scope present warn_pairs
first_update = refl

first_range : (first_row.probability_low ≡ pos 30000) × (first_row.probability_high ≡ pos 100000)
unfolding assessment_of normalize_probability_range
first_range = (refl, refl)

update_scenario-IsRange_example : IsRange (first_row.probability_low, first_row.probability_high)
update_scenario-IsRange_example =
    update_scenario-IsRange thousandths-IsOrdered "model" 50 context 1 (some (λ c a t. ok reply))
      none none 3 registered assessed first_row [] first_update

the_scenario : get_scenario 1 assessed ≡ some (new_scenario escalation 1)
unfolding get_scenario first? insert_assessment insert_scenario
the_scenario = refl

the_previous : latest_assessment 1 (some (or_else none 60)) assessed ≡ some first_row
unfolding latest_assessment latest select insert_assessment insert_scenario assessment_of
the_previous = refl

first_row-IsStoredRow : IsStoredRow first_row
unfolding assessment_of normalize_probability_range
first_row-IsStoredRow = ((refl, refl, refl), tt, tt, tt, tt)

update_scenario-SameView_example :
    (a : ScenarioAssessment ℤ) × (ws : List (ScenarioFamily × ScenarioFamily)) × (t : ScenarioStore
      ℤ)
    × (update_scenario "model" 60 context 1 none none none 4 assessed ≡ ok (a, ws, t))
    × SameView a first_row
    × IsStoredRow a
update_scenario-SameView_example =
    update_scenario-SameView thousandths-IsOrdered "model" 60 context 1 none none 4 assessed
      (new_scenario escalation 1) first_row the_scenario the_previous first_row-IsStoredRow

-- De-escalation at 10 to 20, war from 40, and nothing known between them.
abbrev ranges : Ranges ℤ
ranges =
    put systemic_regional_war (pos 40000, pos 60000)
      (put controlled_deescalation (pos 10000, pos 20000) (λ f. none))

abbrev gap : Gap ranges controlled_deescalation systemic_regional_war
gap = record {
  less = (pos 10000, pos 20000);
  more = (pos 40000, pos 60000);
  less_there = refl;
  more_there = refl;
  ordered = refl;
  none_between = nothing_between;
  exceeds = refl;
}
  where
    nothing_between :
        (h : ScenarioFamily)
        → ltb 0 (severity h) ≡ true
        → ltb (severity h) 3 ≡ true
        → ranges h ≡ none
    nothing_between controlled_deescalation p q = cc
    nothing_between managed_confrontation p q = refl
    nothing_between regional_escalation p q = refl
    nothing_between systemic_regional_war p q = cc

check_family_consistency_complete_example :
    Elem (controlled_deescalation, systemic_regional_war) (check_family_consistency ranges)
check_family_consistency_complete_example =
    check_family_consistency_complete ranges controlled_deescalation systemic_regional_war gap

registration : (create_scenario escalation 1 empty).1 ≡ registered
unfolding create_scenario get_by_family first?
registration = refl

history : History.Reach empty assessed
history =
    History.next
      (History.next History.here
        (subst (History.Step empty) registration (History.register escalation 1 empty)))
      (History.assess "model" 50 context 1 (some (λ c a t. ok reply)) none none 3 registered
        assessed first_row [] first_update)

Reach-IsRegister_example : IsRegister thousandths-IsOrdered assessed
Reach-IsRegister_example =
    Reach-IsRegister thousandths-IsOrdered
      (record { assessments_stored = tt; families_unique = tt }) history
