-- ===== src/Reports/Cited.antt =====
-- What the sections of a report cite, for src/mei/application/services/report_generator.py.
use mathlib.Core.List.{reverse, reverse-cons}
use middle_east_geopolitic.Casework.Models.{LifecycleStatus, CaseStore, Event}
use middle_east_geopolitic.Scenarios.Models.{
  ScenarioStatus, ScenarioAssessment, ScenarioStore, Scenario,
}
use middle_east_geopolitic.Reports.Generator.{
  rendered, with_line, list_active_scenarios, is_moving, list_recent_assessments,
  is_scenario_active, is_event_approved, list_approved_events, scenario_lines, gather_brief,
}
use middle_east_geopolitic.Common.{
  All-append, All-impl, refl, none, [], take, String, arith, some, ◌∷◌, leb, take-All, true, ◌&&◌,
  ◌≤◌, All, Option, ◌≡◌, ℕ, List,
}
use middle_east_geopolitic.Scenarios.Repository.{is_assessment_of, latest_assessment}
use middle_east_geopolitic.Reports.Models.{ReportDraft, ReportTables, Content}
use middle_east_geopolitic.Enums.{Trend}
use middle_east_geopolitic.Relationships.Service.{list_recent_observations}
use middle_east_geopolitic.Common.Rows.First.{select-tested, order_desc-All}
use middle_east_geopolitic.Common.Rows.Laws.{All-select, select_sound}
use middle_east_geopolitic.Common.Rows.{order_desc, select}
use middle_east_geopolitic.Common.Rows.Latest.{latest_sound}

-- Of the rows listed since a time, those that move.
moving :
    {A : Type 0} (time : A → ℕ) (trend : A → Option Trend) (start limit : ℕ) (xs : List A)
    → All
        (λ a. (start ≤ time a) × (is_moving (trend a) ≡ true))
        (select
          (λ a. is_moving (trend a))
          (take limit (order_desc time (select (λ a. leb start (time a)) xs))))
moving time trend start limit xs =
    All-select _ (λ a. is_moving (trend a)) _
      (All-impl (λ a. start ≤ time a) _ (λ a l t. (l, t)) _
        (take-All _ limit _ (
          order_desc-All _ time _ (
            select-tested (λ a. start ≤ time a) (λ a. leb start (time a)) (λ a t. ground arith)
              xs))))

reverse-All : {A : Type 0} (P : A → Type 0) (xs : List A) → All P xs → All P (reverse xs)
reverse-All P [] h = tt
reverse-All P (x ∷ xs) h =
    rw (reverse-cons x xs) (All-append P (reverse xs) (x ∷ []) (reverse-All P xs h.1) (h.0, tt))

active_test : (c : Scenario) → is_scenario_active c.status ≡ true → c.status ≡ ScenarioStatus.active
active_test c h = ground arith

module _ {F : Type 0} where
  -- An approved event of the period.
  abbrev pub IsCited : ℕ → ℕ → Event F → Type 0
  IsCited start end e =
      (e.lifecycle_status ≡ LifecycleStatus.approved)
      × (start ≤ e.started_at)
      × (e.started_at ≤ end)

  -- An active scenario, with its latest assessment at the end of the period.
  abbrev pub IsLine : ℕ → Scenario × ScenarioAssessment F → Type 0
  IsLine end (c, a) =
      (c.status ≡ ScenarioStatus.active) × (a.scenario_id ≡ c.id) × (a.assessed_at ≤ end)

  pub record Cites (c : Content F) : Type 0 where
    pub events_lem : All (IsCited c.period_start c.period_end) c.brief.events
    pub risks_lem :
        All
          (λ a. (c.period_start ≤ a.assessed_at) × (is_moving a.trend ≡ true))
          c.brief.risk_changes
    pub relationships_lem :
        All
          (λ o. (c.period_start ≤ o.observed_at) × (is_moving o.trend ≡ true))
          c.brief.relationship_changes
    pub lines_lem : All (IsLine c.period_end) c.brief.scenario_lines

  tested-IsCited :
      (start end : ℕ) (e : Event F)
      → (is_event_approved e.lifecycle_status && leb start e.started_at && leb e.started_at end)
        ≡ true
      → IsCited start end e
  tested-IsCited start end e h = ground arith

  events-IsCited :
      (start end limit : ℕ) (s : CaseStore F)
      → All (IsCited start end) (list_approved_events start end limit s)
  unfolding list_approved_events
  events-IsCited start end limit s = take-All _ limit _ (
      order_desc-All _ (λ e. e.started_at) _
        (select-tested _ _ (λ e t. tested-IsCited start end e t) s.events))

  latest_assessment-IsLine :
      (end : ℕ) (s : ScenarioStore F) (c : Scenario) (a : ScenarioAssessment F)
      → c.status ≡ ScenarioStatus.active
      → latest_assessment c.id (some end) s ≡ some a
      → IsLine end (c, a)
  unfolding latest_assessment
  latest_assessment-IsLine end s c a h e =
      let (m, _) = latest_sound (λ x. x.assessed_at) _ a e in
      let (_, t) = select_sound (is_assessment_of c.id (some end)) s.assessments a m in
      (h, ground (arith, t), ground (arith, t))

  lines-IsLine :
      (end : ℕ) (s : ScenarioStore F) (cs : List Scenario)
      → All (λ c. c.status ≡ ScenarioStatus.active) cs
      → All (IsLine end) (scenario_lines end s cs)
  unfolding scenario_lines
  lines-IsLine end s [] h = tt
  lines-IsLine end s (c ∷ cs) h =
      line_added (latest_assessment c.id (some end) s) refl (lines-IsLine end s cs h.1)
    where
      line_added :
          (found : Option (ScenarioAssessment F))
          → latest_assessment c.id (some end) s ≡ found
          → All (IsLine end) (scenario_lines end s cs)
          → All (IsLine end) (with_line c found (scenario_lines end s cs))
      line_added none e rest = rest
      line_added (some a) e rest = (latest_assessment-IsLine end s c a h.0 e, rest)

  -- A brief cites what it says it cites.
  pub gather_brief-Cites :
      (title : String) (start end : ℕ) (s : ReportTables F) (d : ReportDraft)
      → Cites (rendered title start end (gather_brief start end s) d)
  unfolding gather_brief list_recent_assessments list_recent_observations list_active_scenarios
  gather_brief-Cites title start end s d = record {
    events_lem = events-IsCited start end 100 s.cases;
    risks_lem = moving (λ a. a.assessed_at) (λ a. a.trend) start 200 s.risks.assessments;
    relationships_lem =
        moving (λ o. o.observed_at) (λ o. o.trend) start 200 s.relations.observations;
    lines_lem = lines-IsLine end s.scenarios _ (
        take-All _ 200 _
          (reverse-All _ _ (select-tested _ _ (λ c t. active_test c t) s.scenarios.scenarios)));
  }
