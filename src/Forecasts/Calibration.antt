-- ===== src/Forecasts/Calibration.antt =====
-- src/mei/application/services/calibration.py: the reliability of resolved forecasts, in buckets of
-- equal width.
pub mod Groups
pub mod Conservation
-- `ForecastSample`
use middle_east_geopolitic.Common.Float.{Float}
use middle_east_geopolitic.Common.{
  ◌&&◌, if◌then◌else◌, false, map, true, length, Bool, zero, some, ◌++◌, suc, ◌∷◌, [], none, ℕ,
  Option, List,
}
use middle_east_geopolitic.Common.Int.{max_ℤ, min_ℤ, pos, pos_part, ℤ}
use middle_east_geopolitic.Forecasts.Repository.{
  opened, ambiguous, list_forecasts, resolved, ForecastRecord, ForecastStatus, ForecastOutcome,
}
use middle_east_geopolitic.Common.Result.{value_error, err, ◌>>=◌, ok, Result}
use middle_east_geopolitic.Common.Rows.{no_later, no_earlier, select}

pub record ForecastSample (F : Type 0) : Type 0 where
  pub probability : F
  pub outcome : Option ForecastOutcome
  pub brier_score : Option F

pub record CalibrationBucket (F : Type 0) : Type 0 where
  pub lower : F
  pub upper : F
  pub forecast_count : ℕ
  pub mean_predicted_probability : Option F
  pub observed_frequency : Option F
  pub mean_brier_score : Option F

pub record CalibrationReport (F : Type 0) : Type 0 where
  pub overall_brier_score : Option F
  pub resolved_count : ℕ
  pub open_count : ℕ
  pub buckets : List (CalibrationBucket F)

-- `[[] for _ in range(n)]`
unfoldable pub empty_groups : {A : Type 0} → ℕ → List (List A)
empty_groups zero = []
empty_groups (suc n) = [] ∷ empty_groups n

-- `grouped[index].append(sample)`, for an index that is there.
unfoldable pub append_at : {A : Type 0} → ℕ → A → List (List A) → List (List A)
append_at i a [] = []
append_at zero a (g ∷ gs) = (g ++ (a ∷ [])) ∷ gs
append_at (suc i) a (g ∷ gs) = g ∷ append_at i a gs

-- `min(max(i, 0), bucket_count - 1)`, where the last index is `last`.
unfoldable pub clamp_index : ℤ → ℕ → ℕ
clamp_index i last = pos_part (min_ℤ (max_ℤ i (pos 0)) (pos last))

abbrev is_scorable : Option ForecastOutcome → Bool
is_scorable none = false
is_scorable (some ambiguous) = false
is_scorable (some _) = true

abbrev was_yes : Option ForecastOutcome → Bool
was_yes (some ForecastOutcome.yes) = true
was_yes _ = false

abbrev pub present_scores : {F : Type 0} → List (Option F) → List F
present_scores [] = []
present_scores (none ∷ xs) = present_scores xs
present_scores (some x ∷ xs) = x ∷ present_scores xs

module _ {F : Type 0} ⦃fl : Float F⦄ where
  -- `sum(xs) / len(xs) if xs else None`
  abbrev pub mean : List F → Option F
  mean [] = none
  mean (x ∷ xs) = some (fl.div (fl.sum (x ∷ xs)) (fl.of_ℕ (length (x ∷ xs))))

  -- The index of the bucket of a sample.
  unfoldable pub bucket_index : ℕ → ForecastSample F → ℕ
  bucket_index last x =
      clamp_index (fl.trunc (fl.mul (fl.div x.probability (fl.of_ℕ 100)) (fl.of_ℕ (suc last)))) last

  -- The loop over the samples.
  unfoldable pub group :
      ℕ → List (ForecastSample F) → List (List (ForecastSample F)) → List (List (ForecastSample F))
  group last [] gs = gs
  group last (x ∷ xs) gs = group last xs (append_at (bucket_index last x) x gs)

  -- One bucket of the second loop; the means of an empty group are `None`.
  unfoldable pub bucket_of : F → ℕ → List (ForecastSample F) → CalibrationBucket F
  bucket_of width index g = record {
    lower = fl.mul (fl.of_ℕ index) width;
    upper = fl.mul (fl.of_ℕ (suc index)) width;
    forecast_count = length g;
    mean_predicted_probability = mean (map (λ x. fl.div x.probability (fl.of_ℕ 100)) g);
    observed_frequency = mean (map (λ x. if was_yes x.outcome then fl.of_ℕ 1 else fl.of_ℕ 0) g);
    mean_brier_score = mean (present_scores (map (λ x. x.brier_score) g));
  }

  unfoldable pub buckets_of : F → ℕ → List (List (ForecastSample F)) → List (CalibrationBucket F)
  buckets_of width index [] = []
  buckets_of width index (g ∷ gs) = bucket_of width index g ∷ buckets_of width (suc index) gs

  unfoldable pub bucket_forecasts :
      List (ForecastSample F) → ℤ → Result (List (CalibrationBucket F))
  bucket_forecasts samples (pos (suc last)) = ok (
      buckets_of (fl.div (fl.of_ℕ 1) (fl.of_ℕ (suc last))) 0
        (group last samples (empty_groups (suc last))))
  bucket_forecasts samples _ = err value_error

  -- `_issued_between`
  unfoldable pub issued_between : Option ℕ → Option ℕ → ForecastRecord F → Bool
  issued_between since until f = no_earlier since f.issued_at && no_later until f.issued_at

  abbrev pub scorable : ForecastRecord F → Bool
  scorable f = is_scorable f.outcome

  abbrev pub sample_of : ForecastRecord F → ForecastSample F
  sample_of f = record {
    probability = f.probability;
    outcome = f.outcome;
    brier_score = f.brier_score;
  }

  -- The forecasts of a status that were issued in the window, at most 100 000 of them.
  unfoldable pub in_window :
      ForecastStatus → Option ℕ → Option ℕ → List (ForecastRecord F) → List (ForecastRecord F)
  in_window status since until fs =
      select (issued_between since until) (list_forecasts (some status) 100000 0 fs)

  unfoldable pub compute_reliability :
      Option ℕ → Option ℕ → ℤ → List (ForecastRecord F) → Result (CalibrationReport F)
  compute_reliability since until bucket_count fs =
      let done = in_window resolved since until fs in
      let scored = select scorable done in
      bucket_forecasts (map sample_of scored) bucket_count >>= λ buckets. ok (record {
        overall_brier_score = mean (present_scores (map (λ f. f.brier_score) scored));
        resolved_count = length done;
        open_count = length (in_window opened since until fs);
        buckets = buckets;
      })
