-- ===== src/Risk/Models.antt =====
-- src/mei/domain/risks/models.py and src/mei/domain/indicators/models.py: the rows of the risk tables,
-- the session that holds them, and the records that the engine passes along. Ids are numbers, times
-- are whole seconds. `evidence_bundle_id` (always `None` here), the free texts `description`,
-- `category`, `value_type`, `conditions_json`, `source_method` and `explanation` are left out.
use middle_east_geopolitic.Common.{ℕ, String, Bool, Option, List}
use middle_east_geopolitic.Common.Int.{ℤ}
use middle_east_geopolitic.Enums.{
  ScopeType, Trend, IndicatorNormalizationMethod, IndicatorDirection, RiskApprovalStatus,
}

pub record RiskDefinition : Type 0 where
  pub id : ℕ
  pub code : String
  pub name : String
  pub scope_types : List String
  pub ruleset_version : String

-- What stands outside `F` is generic in the type of floats.
pub record RiskIndicatorWeight (F : Type 0) : Type 0 where
  pub risk_definition_id : ℕ
  pub indicator_definition_id : ℕ
  pub weight : F
  pub direction : IndicatorDirection

pub record IndicatorDefinition (F : Type 0) : Type 0 where
  pub id : ℕ
  pub code : String
  pub name : String
  pub normalization_method : IndicatorNormalizationMethod
  pub lower_bound : Option F
  pub upper_bound : Option F
  pub staleness_hours : Option ℕ
  pub active : Bool

pub record IndicatorObservation (F : Type 0) : Type 0 where
  pub id : ℕ
  pub indicator_id : ℕ
  pub scope_type : ScopeType
  pub scope_id : ℕ
  pub observed_at : ℕ
  pub raw_value : F
  pub normalized_value : F
  pub confidence : F

-- `ContributionRecord` of risk_engine.py.
pub record ContributionRecord (F : Type 0) : Type 0 where
  pub indicator_code : String
  pub indicator_name : String
  pub weight : F
  pub direction : IndicatorDirection
  pub raw_value : Option F
  pub normalized_value : Option F
  pub contribution : Option F
  pub confidence : Option F
  pub observed_at : Option ℕ
  pub included : Bool
  pub stale : Bool

pub record RiskAssessment (F : Type 0) : Type 0 where
  pub id : ℕ
  pub risk_definition_id : ℕ
  pub scope_type : ScopeType
  pub scope_id : Option ℕ
  pub assessed_at : ℕ
  pub base_score : ℤ
  pub llm_adjustment : ℤ
  pub final_score : ℤ
  pub previous_score : Option ℤ
  pub trend : Option Trend
  pub confidence : F
  pub counter_indicators : List String
  pub contributions : List (ContributionRecord F)
  pub ruleset_version : String
  pub model_version : Option String
  pub approval_status : RiskApprovalStatus
  pub approved_by : String
  pub approved_at : ℕ

-- The tables that the engine reads and writes, and the assessments for which it has scheduled a
-- shadow review (`asyncio.create_task`).
pub record RiskStore (F : Type 0) : Type 0 where
  pub definitions : List RiskDefinition
  pub weights : List (RiskIndicatorWeight F)
  pub indicators : List (IndicatorDefinition F)
  pub observations : List (IndicatorObservation F)
  pub assessments : List (RiskAssessment F)
  pub review_tasks : List ℕ
