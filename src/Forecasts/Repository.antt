-- ===== src/Forecasts/Repository.antt =====
-- src/mei/domain/forecasts/models.py and src/mei/infrastructure/repositories/forecasts.py: the table of
-- forecasts, as the list of its rows. A date is the number of its day, a time of day the number of its
-- tick.
use middle_east_geopolitic.Common.{
  drop, none, take, leb, some, ◌&&◌, String, List, true, ◌==◌, Option, ℕ, Bool,
}
use middle_east_geopolitic.Risk.Engine.{or_else}
use middle_east_geopolitic.Common.Rows.{order_desc, select, update, first?, order_asc}

pub data ForecastStatus : Type 0 where
  opened resolved canceled : ForecastStatus

abbrev status_rank : ForecastStatus → ℕ
status_rank opened = 0
status_rank resolved = 1
status_rank canceled = 2

abbrev pub forecast_status_eq : ForecastStatus → ForecastStatus → Bool
forecast_status_eq a b = status_rank a == status_rank b

pub data ForecastOutcome : Type 0 where
  yes no ambiguous : ForecastOutcome

pub record ForecastRecord (F : Type 0) : Type 0 where
  pub id : ℕ
  pub question : String
  pub issued_at : ℕ
  pub resolution_date : ℕ
  pub probability : F
  pub confidence : F
  pub assumptions : List String
  pub evidence_bundle_id : Option ℕ
  pub status : ForecastStatus
  pub outcome : Option ForecastOutcome
  pub resolved_at : Option ℕ
  pub brier_score : Option F
  pub evaluation_note : Option String

-- The fields that `update` sets where they are given.
pub record ForecastPatch (F : Type 0) : Type 0 where
  pub question : Option String
  pub probability : Option F
  pub confidence : Option F
  pub resolution_date : Option ℕ
  pub status : Option ForecastStatus

module _ {F : Type 0} where
  unfoldable pub get_forecast : ℕ → List (ForecastRecord F) → Option (ForecastRecord F)
  get_forecast i fs = first? (λ f. f.id == i) fs

  abbrev pub has_status : Option ForecastStatus → ForecastRecord F → Bool
  has_status none f = true
  has_status (some t) f = forecast_status_eq f.status t

  unfoldable pub list_forecasts :
      Option ForecastStatus → ℕ → ℕ → List (ForecastRecord F) → List (ForecastRecord F)
  list_forecasts status limit offset fs =
      take limit (drop offset (order_desc (λ f. f.issued_at) (select (has_status status) fs)))

  abbrev pub is_due : ℕ → ForecastRecord F → Bool
  is_due as_of f = forecast_status_eq f.status opened && leb f.resolution_date as_of

  unfoldable pub list_due_forecasts : ℕ → List (ForecastRecord F) → List (ForecastRecord F)
  list_due_forecasts as_of fs = order_asc (λ f. f.resolution_date) (select (is_due as_of) fs)

  abbrev pub with_resolution :
      ForecastOutcome → ℕ → Option F → Option String → ForecastRecord F → ForecastRecord F
  with_resolution outcome resolved_at score text f = record f {
    status = resolved;
    outcome = some outcome;
    resolved_at = some resolved_at;
    brier_score = score;
    evaluation_note = text;
  }

  -- `resolve`: the changed row, and the table with it.
  unfoldable pub resolve_row :
      ℕ
      → ForecastOutcome
      → ℕ
      → Option F
      → Option String
      → List (ForecastRecord F)
      → Option (ForecastRecord F × List (ForecastRecord F))
  resolve_row i outcome resolved_at score text fs = elim (get_forecast i fs) [
    | none ↦ none
    | some f ↦ some (
      with_resolution outcome resolved_at score text f,
      update (λ f. f.id == i) (with_resolution outcome resolved_at score text) fs,
    )
  ]

  unfoldable pub patch_forecast : ForecastPatch F → ForecastRecord F → ForecastRecord F
  patch_forecast p f = record f {
    question = or_else p.question f.question;
    probability = or_else p.probability f.probability;
    confidence = or_else p.confidence f.confidence;
    resolution_date = or_else p.resolution_date f.resolution_date;
    status = or_else p.status f.status;
  }
