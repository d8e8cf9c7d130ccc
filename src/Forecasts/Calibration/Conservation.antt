-- ===== src/Forecasts/Calibration/Conservation.antt =====
-- No forecast is lost between the samples and the buckets.

use middle_east_geopolitic.Forecasts.Calibration.{bucket_of, ForecastSample, CalibrationBucket}
use middle_east_geopolitic.Common.Float.{Float}
use middle_east_geopolitic.Common.{
  ◌&&◌, ◌||◌, ◌==◌, not, Bool, [], ◌+◌, suc, ◌<◌, ◌≡◌, ◌∷◌, ℕ, List,
}
use middle_east_geopolitic.Common.Rows.{select}
use middle_east_geopolitic.Forecasts.Calibration.Groups.{at_least}

-- `int(x)` is at least a positive number exactly when `x` is.
abbrev pub Truncates : (F : Type 0) → ⦃fl : Float F⦄ → ℕ → Type 0
Truncates F ⦃fl = fl⦄ last =
    (x : F) (n : ℕ) → n < last → at_least (suc n) (fl.trunc x) ≡ not (fl.lt x (fl.of_ℕ (suc n)))

module _ {F : Type 0} ⦃fl : Float F⦄ where
  -- The bucket with a number, of those from 0 to `last`: where the probability lies, in widths of a bucket.
  -- What lies below the first one is in the first, and what lies above the last one is in the last.
  unfoldable pub in_bucket : ℕ → ℕ → F → Bool
  in_bucket last k y =
      (k == 0 || not (fl.lt y (fl.of_ℕ k))) && (k == last || fl.lt y (fl.of_ℕ (suc k)))

  abbrev in_widths : ℕ → ForecastSample F → F
  in_widths last x = fl.mul (fl.div x.probability (fl.of_ℕ 100)) (fl.of_ℕ (suc last))

  -- The sum of the counts of the buckets.
  abbrev pub total : List (CalibrationBucket F) → ℕ
  total [] = 0
  total (b ∷ bs) = b.forecast_count + total bs

  -- The bucket of the samples that lie in it, with its bounds and its means.
  abbrev pub bucket_for : ℕ → ℕ → List (ForecastSample F) → CalibrationBucket F
  bucket_for last k samples =
      bucket_of (fl.div (fl.of_ℕ 1) (fl.of_ℕ (suc last))) k
        (select (λ x. in_bucket last k (in_widths last x)) samples)
