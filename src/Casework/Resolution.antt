-- ===== src/Casework/Resolution.antt =====
-- src/mei/application/services/entity_resolution.py: an actor that a text mentions is resolved to one
-- that is known, or an analyst is asked. The similarity of two names is the rapidfuzz library's, a
-- parameter `ratio`.
pub mod Sorting
pub mod Ranking
use middle_east_geopolitic.Common.{
  ◌&&◌, not, ◌++◌, if◌then◌else◌, false, [], true, map, Bool, ◌∷◌, none, some, take, String, List,
  Option, ℕ,
}
use middle_east_geopolitic.Common.Float.{fmax, Float}
use middle_east_geopolitic.Casework.Models.{uuid, ReviewStatus, entity_resolution, ReviewItem}
use middle_east_geopolitic.Common.Rows.{select}

pub record ActorCandidate : Type 0 where
  pub actor_id : ℕ
  pub canonical_name : String
  pub aliases : List String

pub record ScoredCandidate (F : Type 0) : Type 0 where
  pub actor_id : ℕ
  pub canonical_name : String
  pub score : F

pub record ResolutionOutcome : Type 0 where
  pub actor_id : Option ℕ
  pub review_item_id : Option ℕ

-- The settings `entity_resolution_auto_threshold` and `entity_resolution_review_threshold`.
pub record Thresholds (F : Type 0) : Type 0 where
  pub auto_threshold : F
  pub review_threshold : F

abbrev pub max_surfaced_candidates : ℕ
max_surfaced_candidates = 5

abbrev pub resolved_or_queued :
    Option ℕ → ReviewItem → List ReviewItem → ResolutionOutcome × List ReviewItem
resolved_or_queued (some i) item queue =
    (record { actor_id = some i; review_item_id = none }, queue)
resolved_or_queued none item queue =
    (record { actor_id = none; review_item_id = some item.id }, queue ++ (item ∷ []))

module _ {F : Type 0} ⦃fl : Float F⦄ where
  -- `max(fuzz.WRatio(name, other) for other in names)`, from the score of the first name.
  abbrev pub best_score : (String → String → F) → String → F → List String → F
  best_score ratio name best [] = best
  best_score ratio name best (other ∷ rest) =
      best_score ratio name (fmax best (ratio name other)) rest

  abbrev pub scored : (String → String → F) → String → ActorCandidate → ScoredCandidate F
  scored ratio name c = record {
    actor_id = c.actor_id;
    canonical_name = c.canonical_name;
    score = best_score ratio name (ratio name c.canonical_name) c.aliases;
  }

  -- `sort(key=score, reverse=True)`: equal scores keep their order.
  unfoldable pub insert_scored :
      ScoredCandidate F → List (ScoredCandidate F) → List (ScoredCandidate F)
  insert_scored c [] = c ∷ []
  insert_scored c (d ∷ ds) =
      let rest = insert_scored c ds in if fl.lt c.score d.score then d ∷ rest else c ∷ (d ∷ ds)

  unfoldable pub sort_scored : List (ScoredCandidate F) → List (ScoredCandidate F)
  unfolding insert_scored
  sort_scored [] = []
  sort_scored (c ∷ cs) = insert_scored c (sort_scored cs)

  unfoldable pub rank_candidates :
      (String → String → F) → String → List ActorCandidate → List (ScoredCandidate F)
  rank_candidates ratio name candidates = sort_scored (map (scored ratio name) candidates)

  -- `_AMBIGUITY_GAP` points must lie between the first two.
  abbrev is_alone : F → List (ScoredCandidate F) → Bool
  is_alone top [] = true
  is_alone top (d ∷ ds) = not (fl.lt (fl.sub top d.score) (fl.of_ℕ 5))

  unfoldable pub is_auto_resolvable : List (ScoredCandidate F) → F → Bool
  is_auto_resolvable [] threshold = false
  is_auto_resolvable (c ∷ cs) threshold = not (fl.lt c.score threshold) && is_alone c.score cs

  -- `ranked[0].actor_id` where the ranking may be resolved on its own.
  unfoldable pub auto_resolved : List (ScoredCandidate F) → F → Option ℕ
  auto_resolved [] threshold = none
  auto_resolved (c ∷ cs) threshold =
      if is_auto_resolvable (c ∷ cs) threshold then some c.actor_id else none

  -- `exact` is the answer of `find_by_exact_alias`, `pool` that of `list_candidates`.
  unfoldable pub resolve_confident :
      (String → String → F) → Thresholds F → String → Option ℕ → List ActorCandidate → Option ℕ
  resolve_confident ratio th name (some i) pool = some i
  resolve_confident ratio th name none pool =
      auto_resolved (rank_candidates ratio name pool) th.auto_threshold

  unfoldable pub surfaced_of : F → List (ScoredCandidate F) → List (ScoredCandidate F)
  surfaced_of threshold ranked =
      take max_surfaced_candidates (select (λ c. not (fl.lt c.score threshold)) ranked)

  -- The item that `resolve` queues. The mention and the document are kept in it too, and only shown.
  abbrev pub resolution_review :
      ℕ → ℕ → String → String → ℕ → Option String → List (ScoredCandidate F) → ReviewItem
  resolution_review now fresh role target_type target_id event_role surfaced = record {
    id = fresh;
    review_type = entity_resolution;
    status = ReviewStatus.pending;
    subject = record {
      link_kind = some role;
      target_type = some target_type;
      target_id = some (uuid target_id);
      event_role = event_role;
      event_id = none;
      event_type = none;
      strategic_significance = none;
    };
    candidates = map (λ c. c.actor_id) surfaced;
    resolution = none;
    created_at = now;
    resolved_at = none;
    resolved_by = none;
  }

  unfoldable pub resolve :
      (String → String → F)
      → Thresholds F
      → ℕ
      → ℕ
      → String
      → String
      → String
      → ℕ
      → Option String
      → Option ℕ
      → List ActorCandidate
      → List ReviewItem
      → ResolutionOutcome × List ReviewItem
  resolve ratio th now fresh name role target_type target_id event_role exact pool queue =
      resolved_or_queued (resolve_confident ratio th name exact pool)
        (resolution_review now fresh role target_type target_id event_role
          (surfaced_of th.review_threshold (rank_candidates ratio name pool)))
        queue
