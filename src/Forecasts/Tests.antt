-- ===== src/Forecasts/Tests.antt =====
-- Runs of the forecast services on a small table, over thousandths, and the theorems at those inputs.
use middle_east_geopolitic.Common.Fixed.{thousandths}
use middle_east_geopolitic.Forecasts.Audit.{
  calculate_brier_score, resolve_forecast-Resolves, list_due, resolve_forecast, Resolves,
}
use middle_east_geopolitic.Common.Rows.{
  insert_desc, update, insert_asc, order_desc, first?, order_asc, select,
}
use middle_east_geopolitic.Forecasts.Calibration.{
  scorable, issued_between, sample_of, in_window, clamp_index, bucket_index,
}
use middle_east_geopolitic.Forecasts.Repository.{
  resolved, opened, resolve_row, list_forecasts, with_resolution, get_forecast, list_due_forecasts,
  ForecastOutcome, ForecastRecord,
}
use middle_east_geopolitic.Common.Int.{pos, ℤ}
use middle_east_geopolitic.Common.{refl, none, [], some, ◌≡◌, ◌∷◌}
use middle_east_geopolitic.Common.Result.{ok}

abbrev ceasefire : ForecastRecord ℤ
ceasefire = record {
  id = 1;
  question = "Does the ceasefire hold?";
  issued_at = 10;
  resolution_date = 20;
  probability = pos 70000;
  confidence = pos 500;
  assumptions = [];
  evidence_bundle_id = none;
  status = opened;
  outcome = none;
  resolved_at = none;
  brier_score = none;
  evaluation_note = none;
}

abbrev held : ForecastRecord ℤ
held = with_resolution ForecastOutcome.yes 25 (some (pos 90)) none ceasefire

resolution : resolve_forecast 25 1 ForecastOutcome.yes none (ceasefire ∷ []) ≡ ok (held, held ∷ [])
unfolding resolve_forecast get_forecast first? resolve_row update calculate_brier_score
resolution = refl

resolve_forecast-Resolves_example : Resolves 1 ForecastOutcome.yes (ceasefire ∷ []) held (held ∷ [])
resolve_forecast-Resolves_example =
    resolve_forecast-Resolves 25 1 ForecastOutcome.yes none (ceasefire ∷ []) (held ∷ []) held
      resolution

due_before : list_due 20 none (ceasefire ∷ []) ≡ ceasefire ∷ []
unfolding list_due list_due_forecasts order_asc insert_asc select
due_before = refl

scored_in_window : select scorable (in_window resolved none (some 30) (held ∷ [])) ≡ held ∷ []
unfolding select in_window list_forecasts order_desc insert_desc issued_between
scored_in_window = refl

-- 70 per cent falls in the bucket from 0.7.
seventh : bucket_index 9 (sample_of held) ≡ 7
unfolding bucket_index clamp_index
seventh = refl
