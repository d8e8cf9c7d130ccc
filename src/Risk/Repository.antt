-- ===== src/Risk/Repository.antt =====
-- src/mei/infrastructure/repositories/risks.py and indicators.py: the queries and writes of the risk
-- engine, over the tables of a `RiskStore`.
use middle_east_geopolitic.Common.{
  ℕ, String, Bool, ◌&&◌, Option, none, some, List, [], ◌∷◌, ◌++◌, leb, ltb, ◌==◌, id_eq, str_eq,
  take, drop,
}
use middle_east_geopolitic.Common.Rows.{
  select, first?, update, latest, order_desc, no_later, no_earlier,
}
use middle_east_geopolitic.Enums.{ScopeType, scope_eq, IndicatorDirection}
use middle_east_geopolitic.Risk.Models.{
  RiskDefinition, RiskIndicatorWeight, IndicatorDefinition, IndicatorObservation, RiskAssessment,
  RiskStore,
}

module _ {F : Type 0} where
  unfoldable pub get_definition : ℕ → RiskStore F → Option RiskDefinition
  get_definition i s = first? (λ d. d.id == i) s.definitions

  unfoldable pub get_indicator : ℕ → RiskStore F → Option (IndicatorDefinition F)
  get_indicator i s = first? (λ d. d.id == i) s.indicators

  unfoldable pub get_definition_by_code : String → RiskStore F → Option (IndicatorDefinition F)
  get_definition_by_code code s = first? (λ d. str_eq d.code code) s.indicators

  unfoldable pub list_weights : ℕ → RiskStore F → List (RiskIndicatorWeight F)
  list_weights i s = select (λ w. w.risk_definition_id == i) s.weights

  abbrev pub is_weight_of : ℕ → ℕ → RiskIndicatorWeight F → Bool
  is_weight_of risk indicator w =
      w.risk_definition_id == risk && w.indicator_definition_id == indicator

  -- `set_weight`: one row for each pair of keys, changed in place where it is there.
  unfoldable pub set_weight : ℕ → ℕ → F → IndicatorDirection → RiskStore F → RiskStore F
  set_weight risk indicator weight direction s =
      elim (first? (is_weight_of risk indicator) s.weights) [
        | some w ↦ record s {
          weights =
              update (is_weight_of risk indicator)
                (λ w. record w { weight = weight; direction = direction }) s.weights;
        }
        | none ↦ record s {
          weights =
              s.weights
              ++ (record {
                risk_definition_id = risk;
                indicator_definition_id = indicator;
                weight = weight;
                direction = direction;
              }
                  ∷ []);
        }
      ]

  unfoldable pub add_observation : IndicatorObservation F → RiskStore F → RiskStore F
  add_observation o s = record s { observations = s.observations ++ (o ∷ []) }

  abbrev pub observed_for : ℕ → ScopeType → ℕ → ℕ → IndicatorObservation F → Bool
  observed_for indicator scope_type scope_id as_of o =
      o.indicator_id == indicator
      && scope_eq o.scope_type scope_type
      && o.scope_id == scope_id
      && leb o.observed_at as_of

  unfoldable pub get_latest_observation :
      ℕ → ScopeType → ℕ → ℕ → RiskStore F → Option (IndicatorObservation F)
  get_latest_observation indicator scope_type scope_id as_of s =
      latest (λ o. o.observed_at)
        (select (observed_for indicator scope_type scope_id as_of) s.observations)

  abbrev pub assessed_for : ℕ → ScopeType → Option ℕ → RiskAssessment F → Bool
  assessed_for risk scope_type scope_id a =
      a.risk_definition_id == risk && scope_eq a.scope_type scope_type && id_eq a.scope_id scope_id

  unfoldable pub get_assessment : ℕ → RiskStore F → Option (RiskAssessment F)
  get_assessment i s = first? (λ a. a.id == i) s.assessments

  unfoldable pub get_latest_assessment :
      ℕ → ScopeType → Option ℕ → Option ℕ → RiskStore F → Option (RiskAssessment F)
  get_latest_assessment risk scope_type scope_id as_of s =
      latest (λ a. a.assessed_at)
        (select (λ a. assessed_for risk scope_type scope_id a && no_later as_of a.assessed_at)
          s.assessments)

  unfoldable pub get_previous_assessment :
      ℕ → ScopeType → Option ℕ → ℕ → RiskStore F → Option (RiskAssessment F)
  get_previous_assessment risk scope_type scope_id before s =
      latest (λ a. a.assessed_at)
        (select (λ a. assessed_for risk scope_type scope_id a && ltb a.assessed_at before)
          s.assessments)

  unfoldable pub list_history :
      ℕ → ScopeType → Option ℕ → Option ℕ → Option ℕ → ℕ → ℕ → RiskStore F → List (RiskAssessment F)
  list_history risk scope_type scope_id since until limit offset s = take limit (
      drop offset (
        order_desc (λ a. a.assessed_at)
          (select
            (λ a.
              assessed_for risk scope_type scope_id a
              && no_earlier since a.assessed_at
              && no_later until a.assessed_at)
            s.assessments)))

  unfoldable pub create_assessment : RiskAssessment F → RiskStore F → RiskStore F
  create_assessment a s = record s { assessments = s.assessments ++ (a ∷ []) }
