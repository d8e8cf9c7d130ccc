-- ===== src/Relationships/Service.antt =====
-- src/mei/domain/relationships/models.py, src/mei/infrastructure/repositories/relationships.py and
-- src/mei/application/services/relationships.py. The eleven scores of an observation are a list of named
-- values, as the service is given them.
use middle_east_geopolitic.Common.{
  leb, ltb, str_eq, none, ◌||◌, drop, str_elem, ◌&&◌, [], take, true, ◌==◌, ◌∷◌, String, some,
  Option, List, Bool, ℕ, ◌++◌,
}
use middle_east_geopolitic.Common.Rows.{no_later, no_earlier, order_desc, select, first?, latest}
use middle_east_geopolitic.Common.Result.{
  value_error, require, ◌>>=◌, not_found, ok, ◌>>◌, or_raise, Result,
}
use middle_east_geopolitic.Enums.{Trend}
use middle_east_geopolitic.Common.Int.{ℤ}

pub data RelationshipStatus : Type 0 where
  active dormant ended : RelationshipStatus

abbrev status_rank : RelationshipStatus → ℕ
status_rank active = 0
status_rank dormant = 1
status_rank ended = 2

pub data RelationshipDirectionality : Type 0 where
  symmetric source_to_target target_to_source : RelationshipDirectionality

pub record Relationship : Type 0 where
  pub id : ℕ
  pub source_actor_id : ℕ
  pub target_actor_id : ℕ
  pub relationship_type : String
  pub directionality : RelationshipDirectionality
  pub valid_from : Option ℕ
  pub valid_to : Option ℕ
  pub status : RelationshipStatus
  pub created_at : ℕ

abbrev pub Scores : Type 0
Scores = List (String × Option ℤ)

pub record RelationshipObservation (F : Type 0) : Type 0 where
  pub id : ℕ
  pub relationship_id : ℕ
  pub observed_at : ℕ
  pub scores : Scores
  pub trend : Option Trend
  pub confidence : Option F
  pub explanation : Option String
  pub evidence_bundle_id : Option ℕ
  pub ruleset_version : Option String
  pub model_version : Option String
  pub approved_at : Option ℕ
  pub approved_by : Option String

abbrev pub dimension_score_fields : List String
dimension_score_fields =
    "diplomatic_score" ∷ "military_cooperation_score" ∷ "military_tension_score"
    ∷ "intelligence_cooperation_score" ∷ "economic_dependency_score" ∷ "energy_dependency_score"
    ∷ "strategic_trust_score" ∷ "ideological_compatibility_score" ∷ "proxy_competition_score"
    ∷ "public_hostility_score" ∷ "escalation_risk_score" ∷ []

pub record RelationshipStore (F : Type 0) : Type 0 where
  pub actors : List ℕ
  pub relationships : List Relationship
  pub observations : List (RelationshipObservation F)

abbrev pub is_between : ℕ → ℕ → String → Relationship → Bool
is_between a b kind r =
    str_eq r.relationship_type kind
    && ((r.source_actor_id == a && r.target_actor_id == b)
        || (r.source_actor_id == b && r.target_actor_id == a))

abbrev is_with : Option ℕ → Relationship → Bool
is_with none r = true
is_with (some a) r = r.source_actor_id == a || r.target_actor_id == a

abbrev is_of_type : Option String → Relationship → Bool
is_of_type none r = true
is_of_type (some t) r = str_eq r.relationship_type t

abbrev is_in_status : Option RelationshipStatus → Relationship → Bool
is_in_status none r = true
is_in_status (some t) r = status_rank r.status == status_rank t

abbrev pub new_relationship : ℕ → ℕ → ℕ → ℕ → String → RelationshipDirectionality → Relationship
new_relationship now fresh source target kind directionality = record {
  id = fresh;
  source_actor_id = source;
  target_actor_id = target;
  relationship_type = kind;
  directionality = directionality;
  valid_from = none;
  valid_to = none;
  status = active;
  created_at = now;
}

-- `set(scores) - set(DIMENSION_SCORE_FIELDS)` is empty.
abbrev pub all_known : Scores → Bool
all_known [] = true
all_known ((name, value) ∷ rest) = str_elem name dimension_score_fields && all_known rest

module _ {F : Type 0} where
  unfoldable pub get_relationship : ℕ → RelationshipStore F → Option Relationship
  get_relationship i s = first? (λ r. r.id == i) s.relationships

  unfoldable pub get_between : ℕ → ℕ → String → RelationshipStore F → Option Relationship
  get_between a b kind s = first? (is_between a b kind) s.relationships

  unfoldable pub list_relationships :
      Option ℕ
      → Option String
      → Option RelationshipStatus
      → ℕ
      → ℕ
      → RelationshipStore F
      → List Relationship
  list_relationships actor kind status limit offset s = take limit (
      drop offset (
        order_desc (λ r. r.created_at)
          (select
            (λ (r : Relationship). is_with actor r && is_of_type kind r && is_in_status status r)
            s.relationships)))

  unfoldable pub insert_relationship : Relationship → RelationshipStore F → RelationshipStore F
  insert_relationship r s = record s { relationships = s.relationships ++ (r ∷ []) }

  abbrev pub is_observation_of : ℕ → Option ℕ → Option ℕ → RelationshipObservation F → Bool
  is_observation_of i since until o =
      o.relationship_id == i && no_earlier since o.observed_at && no_later until o.observed_at

  unfoldable pub latest_observation :
      ℕ → Option ℕ → RelationshipStore F → Option (RelationshipObservation F)
  latest_observation i as_of s =
      latest (λ o. o.observed_at) (select (is_observation_of i none as_of) s.observations)

  -- `get_previous_observation`
  unfoldable pub observation_before :
      ℕ → ℕ → RelationshipStore F → Option (RelationshipObservation F)
  observation_before i before s =
      latest (λ o. o.observed_at)
        (select (λ o. o.relationship_id == i && ltb o.observed_at before) s.observations)

  unfoldable pub list_recent_observations :
      ℕ → ℕ → RelationshipStore F → List (RelationshipObservation F)
  list_recent_observations since limit s =
      take limit
        (order_desc (λ o. o.observed_at) (select (λ o. leb since o.observed_at) s.observations))

  unfoldable pub list_observations :
      ℕ → Option ℕ → Option ℕ → ℕ → ℕ → RelationshipStore F → List (RelationshipObservation F)
  list_observations i since until limit offset s = take limit (
      drop offset
        (order_desc (λ o. o.observed_at) (select (is_observation_of i since until) s.observations)))

  unfoldable pub insert_observation :
      RelationshipObservation F → RelationshipStore F → RelationshipStore F
  insert_observation o s = record s { observations = s.observations ++ (o ∷ []) }

  abbrev pub find_or_create :
      Option Relationship → Relationship → RelationshipStore F → Relationship × RelationshipStore F
  find_or_create (some r) fresh s = (r, s)
  find_or_create none fresh s = (fresh, insert_relationship fresh s)

  abbrev pub require_known_actor : ℕ → RelationshipStore F → Result (Unit {0})
  require_known_actor a s = or_raise (first? (λ b. b == a) s.actors) not_found >>= λ _. ok tt

  unfoldable pub create_relationship :
      ℕ
      → ℕ
      → ℕ
      → ℕ
      → String
      → RelationshipDirectionality
      → RelationshipStore F
      → Result (Relationship × RelationshipStore F)
  create_relationship now fresh source target kind directionality s =
      require_known_actor source s
      >> require_known_actor target s
      >> ok (
          find_or_create (get_between source target kind s)
            (new_relationship now fresh source target kind directionality) s)

  -- `record_observation`: the row is given with its values, the time of the call filled in.
  unfoldable pub record_scores :
      ℕ
      → RelationshipObservation F
      → RelationshipStore F
      → Result (RelationshipObservation F × RelationshipStore F)
  record_scores now o s = or_raise (get_relationship o.relationship_id s) not_found >>= λ _.
      require (all_known o.scores) value_error
      >> (let row = record o { observed_at = now; approved_at = some now } in
          ok (row, insert_observation row s))

  unfoldable pub get_history :
      ℕ
      → Option ℕ
      → Option ℕ
      → ℕ
      → ℕ
      → RelationshipStore F
      → Result (List (RelationshipObservation F))
  get_history i since until limit offset s = or_raise (get_relationship i s) not_found >>= λ _.
      ok (list_observations i since until limit offset s)
