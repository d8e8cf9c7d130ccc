-- ===== src/Relationships/Tests.antt =====
-- Runs of the relationship service on a small table, and the theorem at those inputs.
use middle_east_geopolitic.Relationships.Service.{
  insert_relationship, symmetric, source_to_target, get_between, new_relationship, get_relationship,
  record_scores, create_relationship, Relationship, RelationshipStore, RelationshipObservation,
}
use middle_east_geopolitic.Common.Int.{pos, ℤ}
use middle_east_geopolitic.Common.{refl, none, [], some, ◌≡◌, ◌∷◌}
use middle_east_geopolitic.Common.Rows.{first?}
use middle_east_geopolitic.Common.Result.{value_error, err, ok}
use middle_east_geopolitic.Relationships.Pairs.{create_relationship-swapped}

abbrev table : RelationshipStore ℤ
table = record { actors = 1 ∷ 2 ∷ []; relationships = []; observations = [] }

abbrev rivalry : Relationship
rivalry = new_relationship 10 5 1 2 "rivalry" symmetric

abbrev after : RelationshipStore ℤ
after = insert_relationship rivalry table

created : create_relationship 10 5 1 2 "rivalry" symmetric table ≡ ok (rivalry, after)
unfolding create_relationship get_between first?
created = refl

create_relationship-swapped_example :
    create_relationship 11 6 2 1 "rivalry" source_to_target after ≡ ok (rivalry, after)
create_relationship-swapped_example =
    create_relationship-swapped 10 11 5 6 1 2 "rivalry" symmetric source_to_target table after
      rivalry created

-- A score of no known dimension is refused.
abbrev scored : RelationshipObservation ℤ
scored = record {
  id = 7;
  relationship_id = 5;
  observed_at = 0;
  scores = ("trust", some (pos 3)) ∷ [];
  trend = none;
  confidence = none;
  explanation = none;
  evidence_bundle_id = none;
  ruleset_version = some "v1";
  model_version = none;
  approved_at = none;
  approved_by = some "analyst";
}

unknown_dimension : record_scores 12 scored after ≡ err value_error
unfolding record_scores get_relationship first? insert_relationship
unknown_dimension = refl
