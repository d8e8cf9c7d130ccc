-- ===== src/Casework/Events.antt =====
-- src/mei/application/services/events.py: events, what is linked to them, and their approval. A call
-- that raises leaves no trace: the session is committed only when the request returns.

-- `HIGH_IMPACT_EVENT_TYPES`
pub mod Approval
use middle_east_geopolitic.Casework.Models.{
  is_terminal, ReviewStatus, extracted, high_impact_event, unreviewed, CaseStore, Claim,
  ClaimEvidence, ReviewItem, LifecycleStatus, EventLocation, EventActor, EventImpact, Event,
}
use middle_east_geopolitic.Common.{
  str_eq, if◌then◌else◌, ◌||◌, not, true, some, str_elem, [], false, none, ◌∷◌, Bool, String, List,
  ℕ, Option,
}
use middle_east_geopolitic.Common.Result.{
  Error, not_found, ◌>>◌, ◌>>=◌, or_raise, ok, require, Result,
}
use middle_east_geopolitic.Common.Int.{ℤ}
use middle_east_geopolitic.Casework.Repository.{
  insert_review, insert_event_actor, list_evidence, list_claims, get_actor, set_lifecycle_status,
  insert_location, insert_impact, get_event, insert_event,
}

abbrev pub high_impact_event_types : List String
high_impact_event_types =
    "war_declaration" ∷ "leader_death_or_incapacitation" ∷ "nuclear_incident"
    ∷ "major_attack_attribution" ∷ "mass_casualty_estimate" ∷ "territorial_control_change"
    ∷ "government_collapse" ∷ "ceasefire_or_treaty" ∷ "chokepoint_closure"
    ∷ "external_power_direct_entry" ∷ []

abbrev is_text : Option String → String → Bool
is_text none t = false
is_text (some s) t = str_eq s t

unfoldable pub is_high_impact_event : String → Option String → Bool
is_high_impact_event event_type strategic_significance =
    str_elem event_type high_impact_event_types || is_text strategic_significance "critical"

-- The arguments of `create_event`.
pub record NewEvent : Type 0 where
  pub event_type : String
  pub title : String
  pub started_at : ℕ
  pub summary : Option String
  pub ended_at : Option ℕ
  pub time_precision : Option String
  pub severity : Option ℤ
  pub strategic_significance : Option String

-- The item that `create_event` queues, and the row that it stores.
abbrev pub impact_review : ℕ → NewEvent → ℕ → ℕ → ReviewItem
impact_review now q fresh fresh_item = record {
  id = fresh_item;
  review_type = high_impact_event;
  status = ReviewStatus.pending;
  subject = record {
    link_kind = none;
    target_type = none;
    target_id = none;
    event_role = none;
    event_id = some fresh;
    event_type = some q.event_type;
    strategic_significance = q.strategic_significance;
  };
  candidates = [];
  resolution = none;
  created_at = now;
  resolved_at = none;
  resolved_by = none;
}

module _ {F : Type 0} where
  abbrev pub new_event : NewEvent → ℕ → Event F
  new_event q fresh = record {
    id = fresh;
    event_type = q.event_type;
    title = q.title;
    summary = q.summary;
    started_at = q.started_at;
    ended_at = q.ended_at;
    time_precision = q.time_precision;
    severity = q.severity;
    strategic_significance = q.strategic_significance;
    verification_status = unreviewed;
    confidence = none;
    lifecycle_status = extracted;
    evidence_bundle_id = none;
    supersedes_event_id = none;
  }

  -- `fresh` and `fresh_item` are the ids that `uuid7` gives to the event and to the item.
  unfoldable pub create_event : ℕ → NewEvent → ℕ → ℕ → CaseStore F → Event F × CaseStore F
  create_event now q fresh fresh_item s =
      let e = new_event q fresh in
      let stored = insert_event e s in
      (
        e,
        if is_high_impact_event q.event_type q.strategic_significance
            then insert_review (impact_review now q fresh fresh_item) stored
            else stored,
      )

  unfoldable pub require_event : ℕ → CaseStore F → Result (Event F)
  require_event i s = or_raise (get_event i s) not_found

  -- The actor of an optional reference, when one is given.
  abbrev pub require_actor : Option ℕ → CaseStore F → Result (Unit {0})
  require_actor none s = ok tt
  require_actor (some i) s = or_raise (get_actor i s) not_found >>= λ _. ok tt

  unfoldable pub add_actor : EventActor F → CaseStore F → Result (CaseStore F)
  add_actor l s = require_event l.event_id s >>= λ _.
      require_actor (some l.actor_id) s >> insert_event_actor l s

  unfoldable pub add_location : EventLocation F → CaseStore F → Result (CaseStore F)
  add_location l s = require_event l.event_id s >>= λ _.
      require_actor l.country_actor_id s >> ok (insert_location l s)

  unfoldable pub add_impact : EventImpact F → CaseStore F → Result (CaseStore F)
  add_impact m s = require_event m.event_id s >>= λ _. ok (insert_impact m s)

  abbrev non_empty : List (ClaimEvidence F) → Bool
  non_empty [] = false
  non_empty (v ∷ vs) = true

  -- The loop over the claims of `approve_event`, which stops at the first that has evidence.
  unfoldable pub any_evidence : List (Claim F) → CaseStore F → Bool
  any_evidence [] s = false
  any_evidence (c ∷ cs) s =
      let rest = any_evidence cs s in if non_empty (list_evidence c.id s) then true else rest

  abbrev pub require_not_terminal : Event F → Result (Unit {0})
  require_not_terminal e = require (not (is_terminal e.lifecycle_status)) Error.conflict

  abbrev pub in_state : LifecycleStatus → Event F → Event F
  in_state status e = record e { lifecycle_status = status }

  unfoldable pub approve_event : ℕ → CaseStore F → Result (Event F × CaseStore F)
  approve_event i s = require_event i s >>= λ e.
      require_not_terminal e
      >> require (any_evidence (list_claims (some i) 1000 0 s) s) Error.conflict
      >> ok (in_state LifecycleStatus.approved e, set_lifecycle_status i LifecycleStatus.approved s)

  unfoldable pub reject_event : ℕ → CaseStore F → Result (Event F × CaseStore F)
  reject_event i s = require_event i s >>= λ e.
      require_not_terminal e
      >> ok (in_state LifecycleStatus.rejected e, set_lifecycle_status i LifecycleStatus.rejected s)
