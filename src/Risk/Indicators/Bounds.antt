-- ===== src/Risk/Indicators/Bounds.antt =====
-- A normalized value lies in 0 to 1, or the reading is refused.
use middle_east_geopolitic.Common.{
  Bool-cases, Option-cases, ℕ, ◌≡◌, inl, inr, Option, none, some, arith, subst, if_both,
}
use middle_east_geopolitic.Common.Float.{Float, IsOrdered, ◌≼◌, feq, clamp_bounds, lt_asymm}
use middle_east_geopolitic.Common.Result.{ok, bind-ok, ok_inj}
use middle_east_geopolitic.Enums.{IndicatorNormalizationMethod, boolean, manual, min_max}
use middle_east_geopolitic.Risk.Models.{IndicatorObservation, RiskStore}
use middle_east_geopolitic.Risk.Repository.{get_definition_by_code}
use middle_east_geopolitic.Risk.Indicators.{normalize_value, unit_clamp, Reading, observe}

module _ {F : Type 0} ⦃fl : Float F⦄ (o : IsOrdered F) where
  abbrev pub IsUnit : F → Type 0
  IsUnit x = (fl.of_ℕ 0 ≼ x) × (x ≼ fl.of_ℕ 1)

  zero≼one : fl.of_ℕ 0 ≼ fl.of_ℕ 1
  zero≼one = lt_asymm o (fl.of_ℕ 0) (fl.of_ℕ 1) (o.of_ℕ-lt 0 1 (omega arith))

  pub unit_clamp-IsUnit : (x : F) → IsUnit (unit_clamp x)
  unit_clamp-IsUnit x = clamp_bounds o (fl.of_ℕ 0) (fl.of_ℕ 1) x zero≼one

  zero-IsUnit : IsUnit (fl.of_ℕ 0)
  zero-IsUnit = (o.lt_irrefl (fl.of_ℕ 0), zero≼one)

  one-IsUnit : IsUnit (fl.of_ℕ 1)
  one-IsUnit = (zero≼one, o.lt_irrefl (fl.of_ℕ 1))

  -- Whatever the method and the bounds, a normalized value lies in 0 to 1.
  pub normalize_value-IsUnit :
      (raw : F) (m : IndicatorNormalizationMethod) (lower upper : Option F) (v : F)
      → normalize_value raw m lower upper ≡ ok v
      → IsUnit v
  unfolding normalize_value
  normalize_value-IsUnit raw boolean lower upper v h =
      subst IsUnit (ok_inj h) (if_both IsUnit (feq raw (fl.of_ℕ 0)) _ _ zero-IsUnit one-IsUnit)
  normalize_value-IsUnit raw manual lower upper v h =
      subst IsUnit (ok_inj h) (unit_clamp-IsUnit raw)
  normalize_value-IsUnit raw min_max (some l) (some u) v h = elim (Bool-cases (feq u l)) [
    | inl e ↦ cc (rw e at h)
    | inr e ↦
        subst IsUnit (ok_inj (rw e at h)) (unit_clamp-IsUnit (fl.div (fl.sub raw l) (fl.sub u l)))
  ]
  normalize_value-IsUnit raw min_max none upper v h = cc
  normalize_value-IsUnit raw min_max (some l) none v h = cc

  -- Every observation that is stored has a normalized value and a confidence in 0 to 1.
  pub observe-IsUnit :
      (now : ℕ) (r : Reading F) (s : RiskStore F) (b : IndicatorObservation F)
      → observe now r s ≡ ok b
      → IsUnit b.normalized_value × IsUnit b.confidence
  unfolding observe
  observe-IsUnit now r s b h = elim (Option-cases (get_definition_by_code r.indicator_code s)) [
    | inl e ↦ cc (rw (e, observe) at h)
    | inr (d, e) ↦
        let (v, n, k) =
          bind-ok (normalize_value r.raw_value d.normalization_method d.lower_bound d.upper_bound) _
            (rw (e, observe) at h) in
        subst (λ (b : IndicatorObservation F). IsUnit b.normalized_value × IsUnit b.confidence)
          (ok_inj k)
          (
            normalize_value-IsUnit r.raw_value d.normalization_method d.lower_bound d.upper_bound v
                n,
            unit_clamp-IsUnit r.confidence,
          )
  ]
