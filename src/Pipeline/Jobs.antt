-- ===== src/Pipeline/Jobs.antt =====
-- src/mei/application/services/pipeline_jobs.py: the recalculation of risks, the evaluation of scenarios,
-- forecasts and monitors, and the daily brief. An item that raises is logged and left out of the count.
use mathlib.Core.List.{reverse}
use middle_east_geopolitic.Enums.{ScopeType}
use middle_east_geopolitic.Risk.Engine.{Request, calculate}
use middle_east_geopolitic.Scenarios.Engine.{ScenarioLlm, update_scenario}
use middle_east_geopolitic.Risk.Models.{RiskAssessment, RiskDefinition, RiskStore}
use middle_east_geopolitic.Common.Float.{Float}
use middle_east_geopolitic.Common.{
  map, if◌then◌else◌, [], none, ◌+◌, true, ◌∷◌, some, length, str_elem, take, Bool, List, Option,
  String, ℕ,
}
use middle_east_geopolitic.Reports.Models.{
  daily_brief, ReportTables, ReportDraft, Brief, ReportTemplate, ReportType,
}
use middle_east_geopolitic.Scenarios.Models.{
  ScenarioFamily, ScenarioAssessment, Scenario, ScenarioStore,
}
use middle_east_geopolitic.Common.Result.{◌>>=◌, ok, err, Result}
use middle_east_geopolitic.Monitors.Models.{default_limit, list_monitors, MonitorStore}
use middle_east_geopolitic.Risk.Llm.{Llm, Settings}
use middle_east_geopolitic.Common.Rows.{update, order_asc}
use middle_east_geopolitic.Forecasts.Repository.{ForecastRecord}
use middle_east_geopolitic.Relationships.Service.{
  RelationshipStatus, list_relationships, Relationship, RelationshipStore,
}
use middle_east_geopolitic.Forecasts.Audit.{list_due}
use middle_east_geopolitic.Reports.Generator.{generate}
use middle_east_geopolitic.Casework.Extraction.Clusters.{has_id}

-- `ScopeType.RELATIONSHIP.value in defn.scope_types`
abbrev pub covers_relationships : RiskDefinition → Bool
covers_relationships d = str_elem "relationship" d.scope_types

-- The place of a text in the order of the database.
abbrev pub Collation : Type 0
Collation = String → ℕ

-- The count so far, and the tables.
abbrev pub Tally : Type 0 → Type 0
Tally S = ℕ × S

-- One more, if the call returned.
abbrev pub counted : {A : Type 0} → ℕ → Result A → ℕ
counted n (err e) = n
counted n (ok a) = n + 1

module _ {F : Type 0} where
  -- `RiskRepository.list_definitions`
  unfoldable pub list_definitions : Collation → RiskStore F → List RiskDefinition
  list_definitions collate s = order_asc (λ d. collate d.code) s.definitions

  -- `ScenarioRepository.list_all` without a status: the latest created comes first.
  unfoldable pub list_scenarios : ℕ → ScenarioStore F → List Scenario
  list_scenarios limit s = take limit (reverse s.scenarios)

  -- `_run_monitor_evaluation`: the first 50 monitors that are enabled are marked.
  unfoldable pub monitor_evaluation : Collation → ℕ → MonitorStore F → ℕ × MonitorStore F
  monitor_evaluation collate now s =
      let ms = list_monitors collate (some true) default_limit 0 s in
      (
        length ms,
        record s {
          monitors =
              update (λ x. has_id x.id (map (λ m. m.id) ms))
                (λ x. record x { last_evaluated_at = some now }) s.monitors;
        },
      )

  -- `_run_daily_brief_generation`
  unfoldable pub daily_brief_generation :
      (ReportType → ReportTemplate)
      → String
      → String
      → ℕ
      → ℕ
      → Option (Brief F → Result ReportDraft)
      → ReportTables F
      → Result (ℕ × ReportTables F)
  daily_brief_generation templates name key now fresh model s =
      generate templates name key now fresh
        (record { report_type = daily_brief; scope_type = none; scope_id = none; as_of = none })
        model s
      >>= λ made. ok (1, made.1)

module _ {F : Type 0} ⦃fl : Float F⦄ where
  -- `_run_forecast_evaluation`: how many forecasts are due
  unfoldable pub forecast_evaluation : ℕ → List (ForecastRecord F) → ℕ
  forecast_evaluation today fs = length (list_due today none fs)

  abbrev pub risk_request : Option (Llm F) → ℕ → RiskDefinition → Relationship → Request F
  risk_request llm fresh d r = record {
    risk_definition_id = d.id;
    scope_type = ScopeType.relationship;
    scope_id = some r.id;
    as_of = none;
    llm = llm;
    triggered_by = some "scheduler";
    persist = true;
    fresh = fresh;
  }

  abbrev pub calculated : ℕ → Result (RiskAssessment F) × RiskStore F → Tally (RiskStore F)
  calculated n (r, s) = (counted n r, s)

  abbrev pub recalculate_one :
      Settings
      → ℕ
      → Option (Llm F)
      → (ℕ → ℕ → ℕ)
      → Relationship
      → RiskDefinition
      → Tally (RiskStore F)
      → Tally (RiskStore F)
  recalculate_one cfg now llm ids r d (n, s) =
      if covers_relationships d
      then calculated n (calculate cfg now (risk_request llm (ids r.id d.id) d r) s)
      else (n, s)

  -- The inner loop, over the definitions. `ids` gives each pair the id of its row.
  unfoldable pub recalculate_definitions :
      Settings
      → ℕ
      → Option (Llm F)
      → (ℕ → ℕ → ℕ)
      → Relationship
      → List RiskDefinition
      → Tally (RiskStore F)
      → Tally (RiskStore F)
  recalculate_definitions cfg now llm ids r [] t = t
  recalculate_definitions cfg now llm ids r (d ∷ ds) t =
      recalculate_definitions cfg now llm ids r ds (recalculate_one cfg now llm ids r d t)

  unfoldable pub recalculate_relationships :
      Settings
      → ℕ
      → Option (Llm F)
      → (ℕ → ℕ → ℕ)
      → List RiskDefinition
      → List Relationship
      → Tally (RiskStore F)
      → Tally (RiskStore F)
  recalculate_relationships cfg now llm ids ds [] t = t
  recalculate_relationships cfg now llm ids ds (r ∷ rs) t =
      recalculate_relationships cfg now llm ids ds rs
        (recalculate_definitions cfg now llm ids r ds t)

  -- `_run_risk_recalculation`
  unfoldable pub risk_recalculation :
      Collation
      → Settings
      → ℕ
      → Option (Llm F)
      → (ℕ → ℕ → ℕ)
      → RelationshipStore F
      → RiskStore F
      → Tally (RiskStore F)
  risk_recalculation collate cfg now llm ids relations s =
      recalculate_relationships cfg now llm ids (list_definitions collate s)
        (list_relationships none none (some RelationshipStatus.active) 200 0 relations) (0, s)

  abbrev pub updated :
      Tally (ScenarioStore F)
      → Result (ScenarioAssessment F × List (ScenarioFamily × ScenarioFamily) × ScenarioStore F)
      → Tally (ScenarioStore F)
  updated (n, s) (err e) = (n, s)
  updated (n, s) (ok (a, ws, t)) = (n + 1, t)

  -- The loop. The log line after a success raises, which is caught: the count stands.
  unfoldable pub evaluate_scenarios :
      String
      → ℕ
      → (Scenario → ℕ → String)
      → Option (ScenarioLlm F)
      → (ℕ → ℕ)
      → List Scenario
      → Tally (ScenarioStore F)
      → Tally (ScenarioStore F)
  evaluate_scenarios version now context llm ids [] t = t
  evaluate_scenarios version now context llm ids (c ∷ cs) t =
      evaluate_scenarios version now context llm ids cs (
        updated t
          (update_scenario version now context c.id llm (some "scheduler") none (ids c.id) t.1))

  -- `_run_scenario_evaluation`
  unfoldable pub scenario_evaluation :
      String
      → ℕ
      → (Scenario → ℕ → String)
      → Option (ScenarioLlm F)
      → (ℕ → ℕ)
      → ScenarioStore F
      → Tally (ScenarioStore F)
  scenario_evaluation version now context llm ids s =
      evaluate_scenarios version now context llm ids (list_scenarios 100 s) (0, s)
