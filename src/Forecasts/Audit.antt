-- ===== src/Forecasts/Audit.antt =====
-- src/mei/application/services/forecast_audit.py: `ForecastAuditService`.
use middle_east_geopolitic.Forecasts.Repository.{
  is_due, resolve_row, with_resolution, resolved, opened, get_forecast, ambiguous, ForecastRecord,
  list_due_forecasts, ForecastOutcome,
}
use middle_east_geopolitic.Common.Float.{Float}
use middle_east_geopolitic.Common.{
  ◌∙◌, sym, subst, refl, inr, inl, Bool-cases, true, if◌then◌else◌, [], false, ◌∷◌, ◌++◌, ◌==◌, ◌≡◌,
  All, some, List, String, none, Option, ℕ,
}
use middle_east_geopolitic.Common.Result.{
  ok_inj, or_raise_sound, ◌>>=◌, bind-ok, not_found, ok, or_raise, Result,
}
use middle_east_geopolitic.Risk.Engine.{or_else}
use middle_east_geopolitic.Common.Rows.{update}
use middle_east_geopolitic.Common.Rows.Laws.{first?-update, All-select, order_asc-All}

abbrev is_yes : ForecastOutcome → ℕ
is_yes ForecastOutcome.yes = 1
is_yes _ = 0

module _ {F : Type 0} ⦃fl : Float F⦄ where
  -- The square is the product of the difference with itself.
  unfoldable pub calculate_brier_score : F → ForecastOutcome → Option F
  calculate_brier_score probability ambiguous = none
  calculate_brier_score probability outcome =
      let d = fl.sub probability (fl.of_ℕ (is_yes outcome)) in some (fl.mul d d)

  abbrev new_forecast : ℕ → ℕ → String → ℕ → F → F → List String → Option ℕ → ForecastRecord F
  new_forecast now fresh question resolution_date probability confidence assumptions bundle =
      record {
        id = fresh;
        question = question;
        issued_at = now;
        resolution_date = resolution_date;
        probability = probability;
        confidence = confidence;
        assumptions = assumptions;
        evidence_bundle_id = bundle;
        status = opened;
        outcome = none;
        resolved_at = none;
        brier_score = none;
        evaluation_note = none;
      }

  -- The arguments of `issue_forecast`, where no assumptions are an empty list.
  unfoldable pub issue_forecast :
      ℕ
      → ℕ
      → String
      → ℕ
      → F
      → F
      → List String
      → Option ℕ
      → List (ForecastRecord F)
      → ForecastRecord F × List (ForecastRecord F)
  issue_forecast now fresh question resolution_date probability confidence assumptions bundle fs =
      let f =
        new_forecast now fresh question resolution_date probability confidence assumptions bundle in
      (f, fs ++ (f ∷ []))

  -- `today` is the date of the call.
  unfoldable pub list_due : ℕ → Option ℕ → List (ForecastRecord F) → List (ForecastRecord F)
  list_due today as_of fs = list_due_forecasts (or_else as_of today) fs

  unfoldable pub resolve_forecast :
      ℕ
      → ℕ
      → ForecastOutcome
      → Option String
      → List (ForecastRecord F)
      → Result (ForecastRecord F × List (ForecastRecord F))
  resolve_forecast now i outcome text fs = or_raise (get_forecast i fs) not_found >>= λ f.
      let score = calculate_brier_score (fl.div f.probability (fl.of_ℕ 100)) outcome in
      or_raise (resolve_row i outcome now score text fs) not_found

  -- What a resolution returns and stores: the row with the outcome and its score, which is there
  -- exactly when the outcome is yes or no; the row's question, probability and confidence stay.
  pub record Resolves (i : ℕ) (outcome : ForecastOutcome) (fs : List (ForecastRecord F))
      (f : ForecastRecord F) (gs : List (ForecastRecord F)) : Type 0 where
    pub before : ForecastRecord F
    pub was_there : get_forecast i fs ≡ some before
    pub is_there : get_forecast i gs ≡ some f
    pub same_question : (f.question ≡ before.question) × (f.probability ≡ before.probability)
    pub is_resolved : (f.status ≡ resolved) × (f.outcome ≡ some outcome)
    pub scored :
        f.brier_score ≡ calculate_brier_score (fl.div before.probability (fl.of_ℕ 100)) outcome
    pub not_due : (as_of : ℕ) → All (λ g. (g.id == i) ≡ false) (list_due_forecasts as_of gs)

  resolve_row-not_due :
      (i : ℕ) (outcome : ForecastOutcome) (now : ℕ) (score : Option F) (text : Option String)
      (fs : List (ForecastRecord F)) (as_of : ℕ)
      → All
          (λ g. (g.id == i) ≡ false)
          (list_due_forecasts as_of
            (update (λ f. f.id == i) (with_resolution outcome now score text) fs))
  unfolding list_due_forecasts update
  resolve_row-not_due i outcome now score text fs as_of =
      order_asc-All (λ g. (g.id == i) ≡ false) (λ f. f.resolution_date) _
        (All-select (λ g. (g.id == i) ≡ false) (is_due as_of) _ (rows fs))
    where
      row :
          (f : ForecastRecord F)
          → is_due as_of (if f.id == i then with_resolution outcome now score text f else f) ≡ true
          → ((if f.id == i then with_resolution outcome now score text f else f).id == i) ≡ false
      row f t = elim (Bool-cases (f.id == i)) [
        | inl e ↦ let k = rw e at t in cc (k)
        | inr e ↦ rw (e, e) refl
      ]

      rows :
          (fs : List (ForecastRecord F))
          → All
              (λ g. is_due as_of g ≡ true → (g.id == i) ≡ false)
              (update (λ f. f.id == i) (with_resolution outcome now score text) fs)
      rows [] = tt
      rows (f ∷ fs) = (row f, rows fs)

  resolve_forecast-run :
      (now i : ℕ) (outcome : ForecastOutcome) (text : Option String) (fs : List (ForecastRecord F))
      (before : ForecastRecord F)
      → get_forecast i fs ≡ some before
      → let score = calculate_brier_score (fl.div before.probability (fl.of_ℕ 100)) outcome in
        resolve_forecast now i outcome text fs
        ≡ ok (
          with_resolution outcome now score text before,
          update (λ (f : ForecastRecord F). f.id == i) (with_resolution outcome now score text) fs,
        )
  unfolding resolve_forecast resolve_row
  resolve_forecast-run now i outcome text fs before e = rw (e, resolve_forecast, resolve_row) refl

  -- A resolution that succeeds returns and stores the row with the outcome and with its score, keeps
  -- what the forecast said, and in the tables that the call leaves, the
  -- forecast is listed as due at no date.
  pub resolve_forecast-Resolves :
      (now i : ℕ) (outcome : ForecastOutcome) (text : Option String)
      (fs gs : List (ForecastRecord F)) (f : ForecastRecord F)
      → resolve_forecast now i outcome text fs ≡ ok (f, gs)
      → Resolves i outcome fs f gs
  unfolding resolve_forecast get_forecast
  resolve_forecast-Resolves now i outcome text fs gs f h =
      let (before, p, h1) = bind-ok (or_raise (get_forecast i fs) not_found) _ h in
      let e = or_raise_sound _ _ _ p in
      let score = calculate_brier_score (fl.div before.probability (fl.of_ℕ 100)) outcome in
      subst (λ (x : ForecastRecord F × List (ForecastRecord F)). Resolves i outcome fs x.0 x.1)
        (ok_inj (sym (resolve_forecast-run now i outcome text fs before e) ∙ h))
        (record {
          before = before;
          was_there = e;
          is_there =
              first?-update (λ (f : ForecastRecord F). f.id == i)
                (with_resolution outcome now score text) (λ a t. t) fs before e;
          same_question = (refl, refl);
          is_resolved = (refl, refl);
          scored = refl;
          not_due = resolve_row-not_due i outcome now score text fs;
        })
