-- ===== src/Casework/Review.antt =====
-- src/mei/application/services/review.py: an analyst decides a queued item.
pub mod Linked
pub mod Once
use middle_east_geopolitic.Common.Result.{
  ◌>>◌, not_found, require, ok, value_error, ◌>>=◌, err, or_raise, Result, Error,
}
use middle_east_geopolitic.Common.{◌&&◌, str_eq, if◌then◌else◌, none, some, String, Option, ℕ}
use middle_east_geopolitic.Casework.Models.{
  resolved_actor_id, acknowledged_by, high_impact_event, malformed, entity_resolution,
  review_status_eq, uuid, review_type_eq, no_resolution, Resolution, CaseStore, EventActor,
  ReviewStatus, RawId, ReviewItem,
}
use middle_east_geopolitic.Casework.Repository.{
  is_claim_role, get_actor, set_actor, close_review, closed, get_review, get_claim,
}
use middle_east_geopolitic.Casework.Events.{add_actor}

-- A key of the subject counts where its value is truthy: there, and not the empty text.
abbrev pub given : Option String → Option String
given none = none
given (some t) = if str_eq t "" then none else some t

abbrev pub parse_uuid : RawId → Result ℕ
parse_uuid malformed = err value_error
parse_uuid (uuid i) = ok i

abbrev pub role_of : Option String → String
role_of none = "participant"
role_of (some t) = t

module _ {F : Type 0} where
  abbrev pub new_link : ℕ → ℕ → Option String → EventActor F
  new_link event actor role = record {
    event_id = event;
    actor_id = actor;
    role = role_of (given role);
    participation_status = none;
    confidence = none;
  }

  -- The branches of `resolve_entity_resolution` on what the subject says to link.
  unfoldable pub link_target :
      String → String → ℕ → Option String → ℕ → CaseStore F → Result (CaseStore F)
  link_target target_type link_kind target role actor s =
      let claimed =
        or_raise (get_claim target s) not_found >>= λ _. set_actor target link_kind actor s in
      if str_eq target_type "event" && str_eq link_kind "event_actor"
      then add_actor (new_link target actor role) s
      else if str_eq target_type "claim" && is_claim_role link_kind
      then claimed
      else err Error.conflict

  -- All three keys, or none of them.
  unfoldable pub apply_link :
      Option String
      → Option String
      → Option RawId
      → Option String
      → ℕ
      → CaseStore F
      → Result (CaseStore F)
  apply_link (some kind) (some target_type) (some raw) role actor s =
      parse_uuid raw >>= λ target. link_target target_type kind target role actor s
  apply_link none none none role actor s = ok s
  apply_link _ _ _ role actor s = err Error.conflict

  unfoldable pub require_pending : ℕ → CaseStore F → Result ReviewItem
  require_pending i s = or_raise (get_review i s) not_found >>= λ r.
      require (review_status_eq r.status ReviewStatus.pending) Error.conflict >> ok r

  abbrev pub finish_review :
      ReviewItem
      → ReviewStatus
      → Resolution
      → ℕ
      → ℕ
      → CaseStore F
      → Result (ReviewItem × CaseStore F)
  finish_review r status resolution user now s =
      ok (closed status resolution user now r, close_review r.id status resolution user now s)

  unfoldable pub resolve_entity_resolution :
      ℕ → ℕ → ℕ → ℕ → CaseStore F → Result (ReviewItem × CaseStore F)
  resolve_entity_resolution now i actor user s = require_pending i s >>= λ r.
      require (review_type_eq r.review_type entity_resolution) Error.conflict
      >> or_raise (get_actor actor s) not_found
      >>= λ _.
          apply_link (given r.subject.link_kind) (given r.subject.target_type) r.subject.target_id
            r.subject.event_role actor s
          >>= λ s'. finish_review r ReviewStatus.approved (resolved_actor_id actor) user now s'

  unfoldable pub acknowledge_high_impact_event :
      ℕ → ℕ → ℕ → Option String → CaseStore F → Result (ReviewItem × CaseStore F)
  acknowledge_high_impact_event now i user note s = require_pending i s >>= λ r.
      require (review_type_eq r.review_type high_impact_event) Error.conflict
      >> finish_review r ReviewStatus.approved (acknowledged_by user note) user now s

  unfoldable pub reject : ℕ → ℕ → ℕ → CaseStore F → Result (ReviewItem × CaseStore F)
  reject now i user s =
      require_pending i s >>= λ r. finish_review r ReviewStatus.rejected no_resolution user now s
