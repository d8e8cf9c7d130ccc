-- ===== src/Risk/Changes.antt =====
-- `diff_changed_indicators` of src/mei/application/services/risk_engine.py, on the records that assessments
-- store, which all have a code.
pub mod Exact
use middle_east_geopolitic.Common.{
  Bool-cases, if_both, arith, ◌⊎◌, Option-cases, ◌≡◌, refl, sym, subst, All, Bool, true, false,
  List, [], ◌∷◌, Option, some, none, String, str_eq, eq_iff, if◌then◌else◌, inl, inr, Elem,
}
use middle_east_geopolitic.Common.Float.{Float}
use middle_east_geopolitic.Risk.Models.{ContributionRecord}

module _ {F : Type 0} where
  -- `previous_by_code.get(code)`: the last record with a code stays in the dictionary.
  unfoldable pub prior_record : String → List (ContributionRecord F) → Option (ContributionRecord F)
  prior_record code [] = none
  prior_record code (r ∷ rs) = elim (prior_record code rs) [
    | none ↦ if str_eq r.indicator_code code then some r else none
    | some q ↦ some q
  ]

  abbrev pub prior_value : Option (ContributionRecord F) → Option F
  prior_value none = none
  prior_value (some r) = r.normalized_value

  -- The codes of what counted, where there is nothing to compare with.
  unfoldable pub included_codes : List (ContributionRecord F) → List String
  included_codes [] = []
  included_codes (r ∷ rs) =
      let rest = included_codes rs in if r.included then r.indicator_code ∷ rest else rest

module _ {F : Type 0} ⦃fl : Float F⦄ where
  -- `abs(x)`
  abbrev pub magnitude : F → F
  magnitude x = if fl.lt x (fl.of_ℕ 0) then fl.sub (fl.of_ℕ 0) x else x

  abbrev pub has_moved : F → Option F → Option F → Bool
  has_moved epsilon none none = false
  has_moved epsilon none (some b) = true
  has_moved epsilon (some a) none = true
  has_moved epsilon (some a) (some b) = fl.lt epsilon (magnitude (fl.sub a b))

  unfoldable pub changed_codes :
      F → List (ContributionRecord F) → List (ContributionRecord F) → List String
  changed_codes epsilon previous [] = []
  changed_codes epsilon previous (r ∷ rs) =
      let rest = changed_codes epsilon previous rs in
      if has_moved epsilon r.normalized_value (prior_value (prior_record r.indicator_code previous))
      then r.indicator_code ∷ rest
      else rest

  -- `previous` is `None` or empty, or not.
  unfoldable pub diff_changed_indicators :
      F → List (ContributionRecord F) → List (ContributionRecord F) → List String
  diff_changed_indicators epsilon [] current = included_codes current
  diff_changed_indicators epsilon (p ∷ ps) current = changed_codes epsilon (p ∷ ps) current
