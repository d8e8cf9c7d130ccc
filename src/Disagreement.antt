-- ===== src/Disagreement.antt =====
-- src/mei/application/services/analyst_disagreement.py and
-- src/mei/infrastructure/repositories/analyst_assessments.py: each analyst's position on a subject, and
-- whether positions conflict.
pub mod Positions
pub mod Stances
mod Tests
use middle_east_geopolitic.Common.{
  none, str_eq, ◌++◌, [], not, id_eq, some, false, ◌&&◌, ◌∷◌, ◌==◌, ◌||◌, Bool, Option, String,
  List, ℕ,
}
use middle_east_geopolitic.Common.Float.{fmin, fle, fmax, Float}
use middle_east_geopolitic.Common.Rows.{update, first?, select}

pub data DisagreementSubjectType : Type 0 where
  claim event risk_assessment relationship_observation : DisagreementSubjectType

abbrev subject_rank : DisagreementSubjectType → ℕ
subject_rank claim = 0
subject_rank event = 1
subject_rank risk_assessment = 2
subject_rank relationship_observation = 3

pub record AnalystAssessment (F : Type 0) : Type 0 where
  pub id : ℕ
  pub subject_type : DisagreementSubjectType
  pub subject_id : ℕ
  pub analyst_user_id : Option ℕ
  pub stance : Option String
  pub score : Option F
  pub confidence : Option F
  pub rationale : Option String
  pub evidence_bundle_id : Option ℕ

-- The key of a position.
pub record PositionKey : Type 0 where
  pub subject_type : DisagreementSubjectType
  pub subject_id : ℕ
  pub analyst_user_id : Option ℕ

-- What an analyst says.
pub record Position (F : Type 0) : Type 0 where
  pub stance : Option String
  pub score : Option F
  pub confidence : Option F
  pub rationale : Option String
  pub evidence_bundle_id : Option ℕ

-- `len({s for s in stances if s is not None}) >= 2`: some stance differs from the first.
unfoldable pub differs_from : String → List (Option String) → Bool
differs_from t [] = false
differs_from t (none ∷ rest) = differs_from t rest
differs_from t (some u ∷ rest) = not (str_eq u t) || differs_from t rest

unfoldable pub distinct_stances : List (Option String) → Bool
distinct_stances [] = false
distinct_stances (none ∷ rest) = distinct_stances rest
distinct_stances (some t ∷ rest) = differs_from t rest

module _ {F : Type 0} where
  abbrev pub available : List (Option F) → List F
  available [] = []
  available (none ∷ xs) = available xs
  available (some x ∷ xs) = x ∷ available xs

  abbrev pub is_on : DisagreementSubjectType → ℕ → AnalystAssessment F → Bool
  is_on subject_type subject_id a =
      subject_rank a.subject_type == subject_rank subject_type && a.subject_id == subject_id

  abbrev pub is_position : PositionKey → AnalystAssessment F → Bool
  is_position k a = is_on k.subject_type k.subject_id a && id_eq a.analyst_user_id k.analyst_user_id

  abbrev pub revised : Position F → AnalystAssessment F → AnalystAssessment F
  revised p a = record a {
    stance = p.stance;
    score = p.score;
    confidence = p.confidence;
    rationale = p.rationale;
    evidence_bundle_id = p.evidence_bundle_id;
  }

  abbrev pub new_position : ℕ → PositionKey → Position F → AnalystAssessment F
  new_position fresh k p = record {
    id = fresh;
    subject_type = k.subject_type;
    subject_id = k.subject_id;
    analyst_user_id = k.analyst_user_id;
    stance = p.stance;
    score = p.score;
    confidence = p.confidence;
    rationale = p.rationale;
    evidence_bundle_id = p.evidence_bundle_id;
  }

  -- `upsert_position`, which `record_position` passes on to. The unique constraint of the table makes the
  -- row of a key the only one.
  unfoldable pub upsert_position :
      ℕ
      → PositionKey
      → Position F
      → List (AnalystAssessment F)
      → AnalystAssessment F × List (AnalystAssessment F)
  upsert_position fresh k p rows = elim (first? (is_position k) rows) [
    | some a ↦ (revised p a, update (is_position k) (revised p) rows)
    | none ↦ (new_position fresh k p, rows ++ (new_position fresh k p ∷ []))
  ]

  -- The order, by creation, is that of the table.
  unfoldable pub list_positions :
      DisagreementSubjectType → ℕ → List (AnalystAssessment F) → List (AnalystAssessment F)
  list_positions subject_type subject_id rows = select (is_on subject_type subject_id) rows

module _ {F : Type 0} ⦃fl : Float F⦄ where
  -- `max(xs) - min(xs)` from the first score.
  unfoldable pub spread : F → F → List F → F
  spread most least [] = fl.sub most least
  spread most least (x ∷ xs) = spread (fmax most x) (fmin least x) xs

  abbrev pub is_spread : F → List F → Bool
  is_spread threshold [] = false
  is_spread threshold (x ∷ []) = false
  is_spread threshold (x ∷ y ∷ xs) = fle threshold (spread x x (y ∷ xs))

  unfoldable pub classify_disagreement : List (Option String) → List (Option F) → F → Bool
  classify_disagreement stances scores threshold =
      distinct_stances stances || is_spread threshold (available scores)
