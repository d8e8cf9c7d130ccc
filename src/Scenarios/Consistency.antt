-- ===== src/Scenarios/Consistency.antt =====
-- src/mei/application/services/scenario_engine.py: the checks that need no table,
-- `normalize_probability_range` and `check_family_consistency`.

-- A dict from families, and `d[family] = range`.
pub mod Gaps
use middle_east_geopolitic.Common.{some, [], none, Option, ◌∷◌, if◌then◌else◌, List}
use middle_east_geopolitic.Scenarios.Models.{
  systemic_regional_war, regional_escalation, family_eq, managed_confrontation,
  controlled_deescalation, ScenarioFamily,
}
use middle_east_geopolitic.Common.Float.{clamp, Float}

abbrev pub Ranges : Type 0 → Type 0
Ranges F = ScenarioFamily → Option (F × F)

-- `_FAMILY_SEVERITY_ORDER`
abbrev pub family_severity_order : List ScenarioFamily
family_severity_order =
    controlled_deescalation ∷ managed_confrontation ∷ regional_escalation ∷ systemic_regional_war
    ∷ []

module _ {F : Type 0} where
  abbrev pub put : ScenarioFamily → F × F → Ranges F → Ranges F
  put family range d g = if family_eq g family then some range else d g

  -- The families of the order that the dict has, with their ranges.
  unfoldable pub present : Ranges F → List ScenarioFamily → List (ScenarioFamily × (F × F))
  present d [] = []
  present d (f ∷ fs) = elim (d f) [ none ↦ present d fs | some r ↦ (f, r) ∷ present d fs ]

module _ {F : Type 0} ⦃fl : Float F⦄ where
  abbrev pub swapped : F × F → F × F
  swapped (low, high) = if fl.lt high low then (high, low) else (low, high)

  unfoldable pub normalize_probability_range : F → F → F × F
  normalize_probability_range low high =
      swapped (clamp (fl.of_ℕ 0) (fl.of_ℕ 100) low, clamp (fl.of_ℕ 0) (fl.of_ℕ 100) high)

  -- The loop over `pairwise(present)`. A warning is the less and the more severe family that its text
  -- names.
  unfoldable pub warn_pairs :
      List (ScenarioFamily × (F × F)) → List (ScenarioFamily × ScenarioFamily)
  warn_pairs [] = []
  warn_pairs ((f, r) ∷ []) = []
  warn_pairs ((f, r) ∷ (g, q) ∷ rest) =
      let more = warn_pairs ((g, q) ∷ rest) in if fl.lt r.1 q.0 then (f, g) ∷ more else more

  unfoldable pub check_family_consistency : Ranges F → List (ScenarioFamily × ScenarioFamily)
  check_family_consistency d = warn_pairs (present d family_severity_order)
