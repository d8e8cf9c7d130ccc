-- ===== src/Risk/History.antt =====
-- Every history of the risk tables: indicator readings, weight changes and calculations in any order.
use middle_east_geopolitic.Risk.Engine
use middle_east_geopolitic.Common.Float.{IsOrdered, Float}
use middle_east_geopolitic.Risk.Models.{RiskAssessment, RiskIndicatorWeight, RiskStore}
use middle_east_geopolitic.Common.{
  refl, true, sym, subst, inr, arith, All-append, inl, [], if_both, ◌∷◌, ◌++◌, Option-cases, Bool,
  false, ◌≡◌, ℕ, All, List,
}
use middle_east_geopolitic.Risk.Repository.{add_observation, set_weight, is_weight_of}
use middle_east_geopolitic.Risk.Indicators.{record_observation, Reading}
use middle_east_geopolitic.Risk.Indicators.Bounds.{observe-IsUnit, IsUnit}
use middle_east_geopolitic.Risk.Engine.Contract.{calculate-IsSound, IsSound}
use middle_east_geopolitic.Enums.{IndicatorDirection}
use middle_east_geopolitic.Risk.Llm.{Settings}
use middle_east_geopolitic.Risk.Indicators
use middle_east_geopolitic.Common.Rows.Laws.{first?-none, All-update}
use middle_east_geopolitic.Common.Rows.{first?, update}
use middle_east_geopolitic.Risk.Engine.{Request}
use middle_east_geopolitic.Common.Result.{err, ok, Result-cases, Result}
use middle_east_geopolitic.Risk.Engine.Writes.{Written, calculate-Written}

module _ {F : Type 0} ⦃fl : Float F⦄ where
  -- One call, with any arguments, whether it succeeds or fails.
  pub data Step : RiskStore F → RiskStore F → Type 0 where
    observe : (now : ℕ) (r : Reading F) (s : RiskStore F) → Step s (record_observation now r s).1
    weigh :
        (risk indicator : ℕ) (w : F) (d : IndicatorDirection) (s : RiskStore F)
        → Step s (set_weight risk indicator w d s)
    calculate :
        (cfg : Settings) (now : ℕ) (q : Request F) (s : RiskStore F)
        → Step s (Engine.calculate cfg now q s).1

  pub data Reach (s : RiskStore F) : RiskStore F → Type 0 where
    here : Reach s s
    next : {t u : RiskStore F} → Reach s t → Step t u → Reach s u

  -- No two weight rows share their keys.
  abbrev pub Unshared : RiskIndicatorWeight F → RiskIndicatorWeight F → Type 0
  Unshared v w = is_weight_of v.risk_definition_id v.indicator_definition_id w ≡ false

  abbrev pub WeightsUnique : List (RiskIndicatorWeight F) → Type 0
  WeightsUnique [] = Unit
  WeightsUnique (w ∷ ws) = All (Unshared w) ws × WeightsUnique ws

  -- Setting the weight and the direction keeps the keys.
  set_row : F → IndicatorDirection → RiskIndicatorWeight F → RiskIndicatorWeight F
  set_row weight direction w = record w { weight = weight; direction = direction }

  update-Unshared :
      (v : RiskIndicatorWeight F) (test : RiskIndicatorWeight F → Bool) (x : F)
      (d : IndicatorDirection) (ws : List (RiskIndicatorWeight F))
      → All (Unshared v) ws
      → All (Unshared v) (update test (set_row x d) ws)
  unfolding set_row
  update-Unshared v test x d ws h = All-update (Unshared v) test (set_row x d) (λ a t k. k) ws h

  update-WeightsUnique :
      (test : RiskIndicatorWeight F → Bool) (x : F) (d : IndicatorDirection)
      (ws : List (RiskIndicatorWeight F))
      → WeightsUnique ws
      → WeightsUnique (update test (set_row x d) ws)
  unfolding update set_row
  update-WeightsUnique test x d [] h = tt
  update-WeightsUnique test x d (w ∷ ws) h = (
    if_both (λ (v : RiskIndicatorWeight F). All (Unshared v) (update test (set_row x d) ws))
        (test w) _ _ (update-Unshared (set_row x d w) test x d ws h.0)
        (update-Unshared w test x d ws h.0),
    update-WeightsUnique test x d ws h.1,
  )

  append-WeightsUnique :
      (ws : List (RiskIndicatorWeight F)) (v : RiskIndicatorWeight F)
      → All (λ w. is_weight_of v.risk_definition_id v.indicator_definition_id w ≡ false) ws
      → WeightsUnique ws
      → WeightsUnique (ws ++ (v ∷ []))
  append-WeightsUnique [] v a h = (tt, tt)
  append-WeightsUnique (w ∷ ws) v a h = (
    All-append (Unshared w) ws (v ∷ []) h.0 (ground arith, tt),
    append-WeightsUnique ws v a.1 h.1,
  )

  set_weight-WeightsUnique :
      (risk indicator : ℕ) (x : F) (d : IndicatorDirection) (s : RiskStore F)
      → WeightsUnique s.weights
      → WeightsUnique (set_weight risk indicator x d s).weights
  unfolding set_weight set_row
  set_weight-WeightsUnique risk indicator x d s h =
      elim (Option-cases (first? (is_weight_of risk indicator) s.weights)) [
        | inl e ↦
            rw (e, set_weight) (append-WeightsUnique s.weights _ (first?-none _ s.weights e) h)
        | inr (w, e) ↦
            rw (e, set_weight) (update-WeightsUnique (is_weight_of risk indicator) x d s.weights h)
      ]

  set_weight-rest :
      (risk indicator : ℕ) (x : F) (d : IndicatorDirection) (s : RiskStore F)
      → set_weight risk indicator x d s
        ≡ record s { weights = (set_weight risk indicator x d s).weights }
  unfolding set_weight
  set_weight-rest risk indicator x d s = ground arith

  module _ (o : IsOrdered F) where
    pub record IsWellFormed (s : RiskStore F) : Type 0 where
      pub observations_in_range :
          All (λ b. IsUnit o b.normalized_value × IsUnit o b.confidence) s.observations
      pub assessments_sound : All IsSound s.assessments
      pub weights_unique : WeightsUnique s.weights

    observe-IsWellFormed :
        (now : ℕ) (r : Reading F) (s : RiskStore F)
        → IsWellFormed s
        → IsWellFormed (record_observation now r s).1
    unfolding record_observation add_observation
    observe-IsWellFormed now r s h = elim (Result-cases (Indicators.observe now r s)) [
      | inl (b, e) ↦
          rw (e, record_observation)
            (record {
              observations_in_range =
                  All-append _ s.observations (b ∷ []) h.observations_in_range
                    (observe-IsUnit o now r s b e, tt);
              assessments_sound = h.assessments_sound;
              weights_unique = h.weights_unique;
            })
      | inr (x, e) ↦ rw (e, record_observation) h
    ]

    weigh-IsWellFormed :
        (risk indicator : ℕ) (x : F) (d : IndicatorDirection) (s : RiskStore F)
        → IsWellFormed s
        → IsWellFormed (set_weight risk indicator x d s)
    weigh-IsWellFormed risk indicator x d s h =
        subst IsWellFormed (sym (set_weight-rest risk indicator x d s)) (record {
          observations_in_range = h.observations_in_range;
          assessments_sound = h.assessments_sound;
          weights_unique = set_weight-WeightsUnique risk indicator x d s h.weights_unique;
        })

    Written-IsWellFormed :
        (cfg : Settings) (persist : Bool) (s t : RiskStore F) (r : Result (RiskAssessment F))
        → ((a : RiskAssessment F) → r ≡ ok a → IsSound a)
        → Written cfg persist s r t
        → IsWellFormed s
        → IsWellFormed t
    Written-IsWellFormed cfg persist s t (err e) k w h = subst IsWellFormed (sym w) h
    Written-IsWellFormed cfg false s t (ok a) k w h = subst IsWellFormed (sym w) h
    Written-IsWellFormed cfg true s t (ok a) k w h = subst IsWellFormed (sym w) (record {
      observations_in_range = h.observations_in_range;
      assessments_sound =
          All-append IsSound s.assessments (a ∷ []) h.assessments_sound (k a refl, tt);
      weights_unique = h.weights_unique;
    })

    Step-IsWellFormed : {s t : RiskStore F} → Step s t → IsWellFormed s → IsWellFormed t
    Step-IsWellFormed (observe now r s) h = observe-IsWellFormed now r s h
    Step-IsWellFormed (weigh risk indicator w d s) h = weigh-IsWellFormed risk indicator w d s h
    Step-IsWellFormed (calculate cfg now q s) h =
        Written-IsWellFormed cfg q.persist s _ (Engine.calculate cfg now q s).0
          (calculate-IsSound o cfg now q s) (calculate-Written cfg now q s) h

    -- In every history of readings, weight changes and calculations, from well-formed tables: the
    -- normalized values and confidences that are stored lie in 0 to 1, every assessment is sound, and
    -- no two weight rows share their risk and indicator.
    pub Reach-IsWellFormed : {s t : RiskStore F} → IsWellFormed s → Reach s t → IsWellFormed t
    Reach-IsWellFormed h here = h
    Reach-IsWellFormed h (next r st) = Step-IsWellFormed st (Reach-IsWellFormed h r)
