-- ===== src/Disagreement/Tests.antt =====
-- Two analysts on one claim, and the theorems at those inputs.
use middle_east_geopolitic.Common.Fixed.{thousandths-IsOrdered, thousandths}
use middle_east_geopolitic.Common.{
  ◌⊎◌, false, true, id_eq, [], none, refl, ◌∷◌, ◌≡◌, some, length, Option, List, ℕ, String,
}
use middle_east_geopolitic.Disagreement.{
  available, new_position, spread, revised, differs_from, claim, is_position, Position,
  AnalystAssessment, distinct_stances, PositionKey, classify_disagreement, upsert_position,
}
use middle_east_geopolitic.Common.Rows.{select, update, first?}
use middle_east_geopolitic.Common.Int.{pos, ℤ}
use middle_east_geopolitic.Disagreement.Stances.{Accord, Conflict, classify_disagreement_iff}
use middle_east_geopolitic.Disagreement.Positions.{upsert_position-keeps, is_by}

abbrev key_of : ℕ → PositionKey
key_of analyst = record { subject_type = claim; subject_id = 9; analyst_user_id = some analyst }

abbrev says : String → Position ℤ
says stance = record {
  stance = some stance;
  score = none;
  confidence = none;
  rationale = none;
  evidence_bundle_id = none;
}

abbrev one : List (AnalystAssessment ℤ)
one = new_position 1 (key_of 5) (says "supports") ∷ []

-- The same analyst revises a row, another one adds one.
revises : length (upsert_position 2 (key_of 5) (says "contradicts") one).1 ≡ 1
unfolding upsert_position first? update
revises = refl

adds : length (upsert_position 2 (key_of 6) (says "contradicts") one).1 ≡ 2
unfolding upsert_position first? update
adds = refl

upsert_position-keeps_example :
    (first? (is_position (key_of 6)) (upsert_position 2 (key_of 6) (says "contradicts") one).1
      ≡ some (upsert_position 2 (key_of 6) (says "contradicts") one).0)
    × (revised (says "contradicts") (upsert_position 2 (key_of 6) (says "contradicts") one).0
        ≡ (upsert_position 2 (key_of 6) (says "contradicts") one).0)
    × ((other : Option ℕ)
        → id_eq (some 6) other ≡ false
        → select (is_by other) (upsert_position 2 (key_of 6) (says "contradicts") one).1
          ≡ select (is_by other) one)
upsert_position-keeps_example = upsert_position-keeps 2 (key_of 6) (says "contradicts") one

abbrev scores : List (Option ℤ)
scores = some (pos 40000) ∷ none ∷ some (pos 55000) ∷ []

calm : classify_disagreement (some "a" ∷ none ∷ some "a" ∷ []) scores (pos 20000) ≡ false
unfolding classify_disagreement distinct_stances differs_from spread
calm = refl

split : classify_disagreement (some "a" ∷ some "b" ∷ []) scores (pos 20000) ≡ true
unfolding classify_disagreement distinct_stances differs_from spread
split = refl

classify_disagreement_iff_example :
    ((classify_disagreement (some "a" ∷ none ∷ some "a" ∷ []) scores (pos 10000) ≡ true)
      × Conflict (some "a" ∷ none ∷ some "a" ∷ []) (available scores) (pos 10000))
    ⊎ ((classify_disagreement (some "a" ∷ none ∷ some "a" ∷ []) scores (pos 10000) ≡ false)
        × Accord (some "a" ∷ none ∷ some "a" ∷ []) (available scores) (pos 10000))
classify_disagreement_iff_example =
    classify_disagreement_iff thousandths-IsOrdered (some "a" ∷ none ∷ some "a" ∷ []) scores
      (pos 10000)
