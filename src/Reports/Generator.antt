-- ===== src/Reports/Generator.antt =====
-- `ReportGenerator.generate` of src/mei/application/services/report_generator.py. The catalogue of templates
-- (configs/report-templates.yml) and the model are parameters; the object storage stores nothing.
use middle_east_geopolitic.Casework.Models.{CaseStore, LifecycleStatus, Event}
use middle_east_geopolitic.Reports.Models.{
  insert_report, ReportStatus, is_scoped, Content, ReportTemplate, ReportTables, Brief, ReportDraft,
  ReportType, Report,
}
use mathlib.Core.List.{reverse}
use middle_east_geopolitic.Scenarios.Models.{
  ScenarioStore, ScenarioAssessment, Scenario, ScenarioStatus,
}
use middle_east_geopolitic.Common.{
  ◌&&◌, leb, ◌||◌, ◌∷◌, take, ◌*◌, [], List, ◌-◌, str_eq, none, some, false, not, true,
  if◌then◌else◌, String, ℕ, Option, Bool,
}
use middle_east_geopolitic.Common.Result.{
  ◌>>=◌, ◌>>◌, llm_output, validation, require, llm_configuration, err, ok, Result,
}
use middle_east_geopolitic.Enums.{stable, falling, rising, Trend, ScopeType}
use middle_east_geopolitic.Risk.Models.{RiskAssessment, RiskStore}
use middle_east_geopolitic.Common.Rows.{order_desc, select}
use middle_east_geopolitic.Relationships.Service.{list_recent_observations, RelationshipObservation}
use middle_east_geopolitic.Scenarios.Repository.{latest_assessment}

pub record ReportRequest : Type 0 where
  pub report_type : ReportType
  pub scope_type : Option ScopeType
  pub scope_id : Option ℕ
  pub as_of : Option ℕ

abbrev pub seconds_per_day : ℕ
seconds_per_day = 86400

abbrev pub or_now : Option ℕ → ℕ → ℕ
or_now none now = now
or_now (some t) now = t

abbrev is_given : Option ℕ → Bool
is_given none = false
is_given (some i) = true

-- `a.trend is not None and a.trend.value != "stable"`
abbrev pub is_moving : Option Trend → Bool
is_moving none = false
is_moving (some rising) = true
is_moving (some falling) = true
is_moving (some stable) = false

abbrev pub is_event_approved : LifecycleStatus → Bool
is_event_approved LifecycleStatus.approved = true
is_event_approved _ = false

abbrev pub is_scenario_active : ScenarioStatus → Bool
is_scenario_active ScenarioStatus.active = true
is_scenario_active _ = false

abbrev pub no_draft : String → ReportDraft
no_draft t = record { executive_assessment = t; indicators_to_monitor = [] }

-- `except (LLMConfigurationError, LLMOutputError)`
abbrev pub or_fallback : Result ReportDraft → Result ReportDraft
or_fallback (ok d) = ok d
or_fallback (err llm_configuration) =
    ok (no_draft "No executive assessment drafted: LLM drafting failed.")
or_fallback (err llm_output) = ok (no_draft "No executive assessment drafted: LLM drafting failed.")
or_fallback (err e) = err e

abbrev pub or_none_available : String → String
or_none_available t = if str_eq t "" then "No material executive assessment available." else t

abbrev pub names_scope : ReportRequest → Bool
names_scope q = not (is_scoped q.report_type) || is_given q.scope_id

module _ {F : Type 0} where
  -- `EventRepository.list_all` for approved events
  unfoldable pub list_approved_events : ℕ → ℕ → ℕ → CaseStore F → List (Event F)
  list_approved_events since until limit s = take limit (
      order_desc (λ e. e.started_at)
        (select
          (λ (e : Event F).
            is_event_approved e.lifecycle_status
            && leb since e.started_at
            && leb e.started_at until)
          s.events))

  unfoldable pub list_recent_assessments : ℕ → ℕ → RiskStore F → List (RiskAssessment F)
  list_recent_assessments since limit s =
      take limit
        (order_desc (λ a. a.assessed_at) (select (λ a. leb since a.assessed_at) s.assessments))

  -- `list_all` of the active scenarios: the latest created comes first.
  unfoldable pub list_active_scenarios : ℕ → ScenarioStore F → List Scenario
  list_active_scenarios limit s =
      take limit (reverse (select (λ (c : Scenario). is_scenario_active c.status) s.scenarios))

  abbrev pub with_line :
      Scenario
      → Option (ScenarioAssessment F)
      → List (Scenario × ScenarioAssessment F)
      → List (Scenario × ScenarioAssessment F)
  with_line c none rest = rest
  with_line c (some a) rest = (c, a) ∷ rest

  -- `_active_scenario_lines`, the loop
  unfoldable pub scenario_lines :
      ℕ → ScenarioStore F → List Scenario → List (Scenario × ScenarioAssessment F)
  scenario_lines as_of s [] = []
  scenario_lines as_of s (c ∷ cs) =
      with_line c (latest_assessment c.id (some as_of) s) (scenario_lines as_of s cs)

  unfoldable pub gather_brief : ℕ → ℕ → ReportTables F → Brief F
  gather_brief start now s = record {
    events = list_approved_events start now 100 s.cases;
    risk_changes = select (λ a. is_moving a.trend) (list_recent_assessments start 200 s.risks);
    relationship_changes =
        select (λ (o : RelationshipObservation F). is_moving o.trend)
          (list_recent_observations start 200 s.relations);
    scenario_lines = scenario_lines now s.scenarios (list_active_scenarios 200 s.scenarios);
  }

  unfoldable pub draft_sections :
      Option (Brief F → Result ReportDraft) → Brief F → Result ReportDraft
  draft_sections none brief =
      ok (no_draft "No executive assessment drafted: no LLM is configured for this run.")
  draft_sections (some model) brief = or_fallback (model brief)

  -- `_render_markdown`
  abbrev pub rendered : String → ℕ → ℕ → Brief F → ReportDraft → Content F
  rendered title start now brief draft = record {
    title = title;
    period_start = start;
    period_end = now;
    brief = brief;
    executive_assessment = or_none_available draft.executive_assessment;
    indicators_to_monitor = draft.indicators_to_monitor;
  }

  abbrev pub author_of : String → Option (Brief F → Result ReportDraft) → Option String
  author_of name none = none
  author_of name (some model) = some name

  abbrev pub generated_report :
      ReportRequest → ℕ → Content F → Option String → Option String → Report F
  generated_report q fresh content key author = record {
    id = fresh;
    report_type = q.report_type;
    scope_type = q.scope_type;
    scope_id = q.scope_id;
    content = content;
    content_object_key = key;
    status = ReportStatus.generated;
    generated_by_model = author;
    approved_by = none;
    approved_at = none;
    published_at = none;
  }

  -- The report of a draft, and the tables with it. `name` is the text of the model's version, `key` that of
  -- the archived copy.
  unfoldable pub write_report :
      (ReportType → ReportTemplate)
      → String
      → String
      → ℕ
      → ℕ
      → ReportRequest
      → Option (Brief F → Result ReportDraft)
      → ReportTables F
      → ReportDraft
      → Report F × ReportTables F
  write_report templates name key now fresh q model s draft =
      let end = or_now q.as_of now in
      let template = templates q.report_type in
      let start = end - template.period_days * seconds_per_day in
      let content = rendered template.title start end (gather_brief start end s) draft in
      let report = generated_report q fresh content (some key) (author_of name model) in
      (report, insert_report report s)

  unfoldable pub generate :
      (ReportType → ReportTemplate)
      → String
      → String
      → ℕ
      → ℕ
      → ReportRequest
      → Option (Brief F → Result ReportDraft)
      → ReportTables F
      → Result (Report F × ReportTables F)
  generate templates name key now fresh q model s =
      let end = or_now q.as_of now in
      let start = end - (templates q.report_type).period_days * seconds_per_day in
      require (names_scope q) validation
      >> draft_sections model (gather_brief start end s)
      >>= λ draft. ok (write_report templates name key now fresh q model s draft)
