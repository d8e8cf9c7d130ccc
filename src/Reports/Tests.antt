-- ===== src/Reports/Tests.antt =====
-- A report of one approved event, its approval and its publication, and the theorem at that history.
use middle_east_geopolitic.Casework.Models.{LifecycleStatus, unreviewed, Event}
use middle_east_geopolitic.Reports.Models.{
  insert_report, daily_brief, get_report, ReportTemplate, Brief, ReportDraft, ReportTables,
  ReportType, Report,
}
use middle_east_geopolitic.Reports.Generator.{
  draft_sections, list_active_scenarios, scenario_lines, list_recent_assessments,
  list_approved_events, gather_brief, rendered, generated_report, write_report, generate,
  ReportRequest,
}
use middle_east_geopolitic.Common.Int.{ℤ}
use middle_east_geopolitic.Reports.History.{Reach, Step, Reach-IsShelf}
use middle_east_geopolitic.Reports.Lifecycle.{publish_report}
use middle_east_geopolitic.Common.{◌==◌, Bool, inl, ℕ, refl, ◌≡◌, some, ◌∷◌, [], none}
use middle_east_geopolitic.Common.Rows.{order_desc, select, first?}
use middle_east_geopolitic.Common.Result.{ok, Error, err}
use middle_east_geopolitic.Relationships.Service.{list_recent_observations}
use middle_east_geopolitic.Reports.Shelf.{IsShelf}

abbrev strike : Event ℤ
strike = record {
  id = 4;
  event_type = "strike";
  title = "A strike";
  summary = none;
  started_at = 950000;
  ended_at = none;
  time_precision = none;
  severity = none;
  strategic_significance = none;
  verification_status = unreviewed;
  confidence = none;
  lifecycle_status = LifecycleStatus.approved;
  evidence_bundle_id = none;
  supersedes_event_id = none;
}

-- Too old for a daily brief.
abbrev old_strike : Event ℤ
old_strike = record strike { id = 5; started_at = 800000 }

abbrev tables : ReportTables ℤ
tables = record {
  cases = record {
    actors = [];
    documents = [];
    events = old_strike ∷ strike ∷ [];
    event_actors = [];
    locations = [];
    impacts = [];
    claims = [];
    evidence = [];
    reviews = [];
  };
  risks = record {
    definitions = [];
    weights = [];
    indicators = [];
    observations = [];
    assessments = [];
    review_tasks = [];
  };
  relations = record { actors = []; relationships = []; observations = [] };
  scenarios = record { scenarios = []; assessments = [] };
  reports = [];
}

abbrev templates : ReportType → ReportTemplate
templates t = record { title = "Daily Intelligence Brief"; period_days = 1 }

abbrev daily : ReportRequest
daily = record { report_type = daily_brief; scope_type = none; scope_id = none; as_of = none }

abbrev no_reply : ReportDraft
no_reply = record {
  executive_assessment = "No executive assessment drafted: no LLM is configured for this run.";
  indicators_to_monitor = [];
}

abbrev brief_of_strike : Brief ℤ
brief_of_strike = record {
  events = strike ∷ [];
  risk_changes = [];
  relationship_changes = [];
  scenario_lines = [];
}

abbrev daily_report : Report ℤ
daily_report =
    generated_report daily 9
      (rendered "Daily Intelligence Brief" 913600 1000000 brief_of_strike no_reply)
      (some "reports/1") none

abbrev with_report : ReportTables ℤ
with_report = record tables { reports = daily_report ∷ [] }

made :
    generate templates "model" "reports/1" 1000000 9 daily none tables
    ≡ ok (daily_report, with_report)
unfolding generate write_report gather_brief list_approved_events select order_desc
    list_recent_assessments list_recent_observations scenario_lines list_active_scenarios
    insert_report draft_sections
made = refl

-- It cannot be published before it is approved.
too_early : publish_report 1000001 9 with_report ≡ err Error.conflict
unfolding publish_report get_report first?
too_early = refl

abbrev is_ninth : ℕ → Bool
is_ninth i = i == 9

empty-IsShelf : IsShelf is_ninth tables.reports
empty-IsShelf = record { sound = tt; distinct = tt }

-- An investigation adds a report of its own.
abbrev with_other : ReportTables ℤ
with_other = record tables { reports = daily_report ∷ record daily_report { id = 12 } ∷ [] }

ninth_made : Reach is_ninth tables with_report
ninth_made = Reach.next Reach.here (
    Step.generated templates "model" "reports/1" 1000000 9 daily none daily_report tables
      with_report tt made)

Reach-IsShelf_example : IsShelf is_ninth with_other.reports
Reach-IsShelf_example = Reach-IsShelf {own = is_ninth} {s = tables} {t = with_other} empty-IsShelf (
    Reach.next ninth_made (
      Step.others_wrote with_report with_other ((λ _. inl refl), ((λ e. cc), tt))
        ((refl, tt), (tt, tt))))
