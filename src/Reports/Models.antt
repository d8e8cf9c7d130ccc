-- ===== src/Reports/Models.antt =====
-- src/mei/domain/reports/models.py and src/mei/infrastructure/repositories/reports.py, with the queries of
-- the other repositories that reports are made from. The Markdown of a report is kept as what it is
-- rendered from.
use middle_east_geopolitic.Casework.Models.{CaseStore, Event}
use middle_east_geopolitic.Risk.Models.{RiskStore, RiskAssessment}
use middle_east_geopolitic.Scenarios.Models.{Scenario, ScenarioAssessment, ScenarioStore}
use middle_east_geopolitic.Relationships.Service.{RelationshipStore, RelationshipObservation}
use middle_east_geopolitic.Common.{
  ◌==◌, [], false, none, true, Option, some, ◌∷◌, String, ℕ, List, ◌++◌, Bool,
}
use middle_east_geopolitic.Enums.{ScopeType}
use middle_east_geopolitic.Common.Rows.{update, first?}

pub data ReportType : Type 0 where
  daily_brief weekly_outlook country_brief conflict_brief : ReportType

-- `_SCOPED_REPORT_TYPES`
abbrev pub is_scoped : ReportType → Bool
is_scoped country_brief = true
is_scoped conflict_brief = true
is_scoped _ = false

pub data ReportStatus : Type 0 where
  generated approved published rejected : ReportStatus

abbrev pub is_approved : ReportStatus → Bool
is_approved ReportStatus.approved = true
is_approved _ = false

pub record ReportTemplate : Type 0 where
  pub title : String
  pub period_days : ℕ

pub record ReportDraft : Type 0 where
  pub executive_assessment : String
  pub indicators_to_monitor : List String

-- What the sections of a report are drawn from.
pub record Brief (F : Type 0) : Type 0 where
  pub events : List (Event F)
  pub risk_changes : List (RiskAssessment F)
  pub relationship_changes : List (RelationshipObservation F)
  pub scenario_lines : List (Scenario × ScenarioAssessment F)

pub record Content (F : Type 0) : Type 0 where
  pub title : String
  pub period_start : ℕ
  pub period_end : ℕ
  pub brief : Brief F
  pub executive_assessment : String
  pub indicators_to_monitor : List String

-- The dates of the period are those of the content.
pub record Report (F : Type 0) : Type 0 where
  pub id : ℕ
  pub report_type : ReportType
  pub scope_type : Option ScopeType
  pub scope_id : Option ℕ
  pub content : Content F
  pub content_object_key : Option String
  pub status : ReportStatus
  pub generated_by_model : Option String
  pub approved_by : Option String
  pub approved_at : Option ℕ
  pub published_at : Option ℕ

pub record ReportTables (F : Type 0) : Type 0 where
  pub cases : CaseStore F
  pub risks : RiskStore F
  pub relations : RelationshipStore F
  pub scenarios : ScenarioStore F
  pub reports : List (Report F)

module _ {F : Type 0} where
  unfoldable pub get_report : ℕ → ReportTables F → Option (Report F)
  get_report i s = first? (λ r. r.id == i) s.reports

  unfoldable pub insert_report : Report F → ReportTables F → ReportTables F
  insert_report r s = record s { reports = s.reports ++ (r ∷ []) }

  abbrev pub approved_report : String → ℕ → Report F → Report F
  approved_report by at_time r = record r {
    status = ReportStatus.approved;
    approved_by = some by;
    approved_at = some at_time;
  }

  abbrev pub rejected_report : Report F → Report F
  rejected_report r = record r { status = ReportStatus.rejected }

  abbrev pub published_report : ℕ → Report F → Report F
  published_report at_time r = record r {
    status = ReportStatus.published;
    published_at = some at_time;
  }

  -- The repository's `approve`, `reject` and `publish`: the row that is changed, or none.
  unfoldable pub change_report :
      ℕ → (Report F → Report F) → ReportTables F → Option (Report F) × ReportTables F
  unfolding get_report
  change_report i f s = elim (get_report i s) [
    | none ↦ (none, s)
    | some r ↦ (some (f r), record s { reports = update (λ x. x.id == i) f s.reports })
  ]
