-- ===== src/Investigations/Models.antt =====
-- src/mei/domain/investigations/models.py, and the repository's operations. What a step put out, the summary
-- of an investigation and its report are kept as the rows that their texts are drawn from.
use middle_east_geopolitic.Common.{Bool, List, Option, String, true, false, none, ◌==◌, ℕ}
use middle_east_geopolitic.Common.Result.{Error}
use middle_east_geopolitic.Common.Rows.{first?, order_asc, select}
use middle_east_geopolitic.Casework.Models.{Event, Claim}
use middle_east_geopolitic.Ingestion.Models.{Document}

-- The values of the two columns `status`.
pub data Progress : Type 0 where
  pending running completed failed : Progress

-- `status in ("pending", "running")`
abbrev pub is_open : Progress → Bool
is_open pending = true
is_open running = true
is_open _ = false

-- `comparison_summary`
pub data Summary : Type 0 where
  no_claims : Summary
  disputed : ℕ → ℕ → Summary
  undisputed : ℕ → Summary

pub record Comparison (F : Type 0) : Type 0 where
  pub comparison_summary : Summary
  pub divergence_score : F
  pub confidence : F
  pub supporting_evidence_count : ℕ
  pub contradicting_evidence_count : ℕ

pub record Findings (F : Type 0) : Type 0 where
  pub documents : List Document
  pub events : List (Event F)
  pub claims : List (Claim F)
  pub comparison : Comparison F

-- `output_json`
pub data Output (F : Type 0) : Type 0 where
  no_output : Output F
  found : List Document → List (Event F) → Output F
  extracted : List (Claim F) → Output F
  compared : Comparison F → Output F
  no_handler : Output F

-- `result_summary`
pub data Conclusion (F : Type 0) : Type 0 where
  due_to : Error → Conclusion F
  concluded : Findings F → Conclusion F

pub record InvestigationStep (F : Type 0) : Type 0 where
  pub id : ℕ
  pub investigation_id : ℕ
  pub step_type : String
  pub sequence : ℕ
  pub status : Progress
  pub output : Output F
  pub started_at : Option ℕ
  pub completed_at : Option ℕ
  pub error : Option Error

pub record Investigation (F : Type 0) : Type 0 where
  pub id : ℕ
  pub title : String
  pub question : String
  pub status : Progress
  pub priority : String
  pub requested_by : String
  pub assigned_to : Option String
  pub started_at : Option ℕ
  pub completed_at : Option ℕ
  pub result : Option (Conclusion F)
  pub confidence : Option F
  pub report_id : Option ℕ

-- A report of the type `conflict_brief` and the status `generated`.
pub record InvestigationBrief (F : Type 0) : Type 0 where
  pub id : ℕ
  pub title : String
  pub question : String
  pub findings : Findings F

pub record InvestigationStore (F : Type 0) : Type 0 where
  pub investigations : List (Investigation F)
  pub steps : List (InvestigationStep F)
  pub reports : List (InvestigationBrief F)

module _ {F : Type 0} where
  unfoldable pub get_investigation : ℕ → InvestigationStore F → Option (Investigation F)
  get_investigation i s = first? (λ v. v.id == i) s.investigations

  -- `create`
  abbrev pub new_investigation :
      ℕ → String → String → String → String → Option String → Investigation F
  new_investigation fresh title question requested_by priority assigned_to = record {
    id = fresh;
    title = title;
    question = question;
    status = pending;
    priority = priority;
    requested_by = requested_by;
    assigned_to = assigned_to;
    started_at = none;
    completed_at = none;
    result = none;
    confidence = none;
    report_id = none;
  }

  -- `create_step`
  abbrev pub new_step : ℕ → ℕ → String → ℕ → InvestigationStep F
  new_step fresh i kind sequence = record {
    id = fresh;
    investigation_id = i;
    step_type = kind;
    sequence = sequence;
    status = pending;
    output = no_output;
    started_at = none;
    completed_at = none;
    error = none;
  }

  unfoldable pub get_steps : ℕ → InvestigationStore F → List (InvestigationStep F)
  get_steps i s =
      order_asc (λ x. x.sequence)
        (select (λ (x : InvestigationStep F). x.investigation_id == i) s.steps)
