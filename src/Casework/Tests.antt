-- ===== src/Casework/Tests.antt =====
-- Runs of the casework services on small tables, and the theorems at those inputs.
use middle_east_geopolitic.Common.Fixed.{thousandths, thousandths-IsOrdered}
use middle_east_geopolitic.Casework.History
use middle_east_geopolitic.Casework.Models.{
  review_status_eq, acknowledged_by, supports, ReviewStatus, LifecycleStatus, Event, ClaimEvidence,
  CaseStore, ReviewItem, EventLocation,
}
use middle_east_geopolitic.Common.{
  ◌≤◌, length, ◌++◌, str_eq, ◌⊎◌, if◌then◌else◌, List, String, ℕ, refl, false, [], some, ◌∷◌, ◌≡◌,
  none, All,
}
use middle_east_geopolitic.Casework.Claims.{new_claim, create_claim, add_evidence, NewClaim}
use middle_east_geopolitic.Casework.Events.{
  any_evidence, impact_review, is_high_impact_event, new_event, create_event, require_event,
  in_state, add_location, NewEvent, approve_event,
}
use middle_east_geopolitic.Casework.Repository.{
  insert_review, insert_event, list_evidence, set_lifecycle_status, get_document, insert_claim,
  insert_evidence, insert_location, list_claims, get_actor, closed, close_review, get_claim,
  get_review, get_event,
}
use middle_east_geopolitic.Casework.Review.Once.{decide-once, acknowledge, Decision, decide}
use middle_east_geopolitic.Casework.Events.Approval.{approve_event-Approves, Approves}
use middle_east_geopolitic.Casework.History.Invariants.{Reach-settled, Reach-Vouched, Vouched}
use middle_east_geopolitic.Casework.Review.{require_pending, acknowledge_high_impact_event}
use middle_east_geopolitic.Common.Int.{pos, ℤ}
use middle_east_geopolitic.Common.Rows.{insert_desc, order_desc, select, update, first?}
use middle_east_geopolitic.Common.Result.{Error, err, ok}
use middle_east_geopolitic.Casework.Resolution.{
  insert_scored, resolution_review, sort_scored, is_auto_resolvable, rank_candidates, auto_resolved,
  surfaced_of, resolve_confident, ActorCandidate, ScoredCandidate, Thresholds, resolve,
}
use middle_east_geopolitic.Casework.Resolution.Ranking.{resolve-decides, IsBest}
use middle_east_geopolitic.Common.Float.{◌≼◌}

abbrev empty : CaseStore ℤ
empty = record {
  actors = 7 ∷ [];
  documents = 5 ∷ [];
  events = [];
  event_actors = [];
  locations = [];
  impacts = [];
  claims = [];
  evidence = [];
  reviews = [];
}

abbrev closure : NewEvent
closure = record {
  event_type = "chokepoint_closure";
  title = "Strait closed";
  started_at = 40;
  summary = none;
  ended_at = none;
  time_precision = none;
  severity = some (pos 4);
  strategic_significance = none;
}

abbrev report : NewClaim
report = record {
  claim_text = "The strait is closed";
  claim_type = "status";
  user_id = 2;
  claimant_actor_id = none;
  subject_actor_id = some 7;
  event_id = some 1;
}

abbrev passage : ClaimEvidence ℤ
passage = record {
  id = 4;
  claim_id = 3;
  document_id = 5;
  chunk_id = none;
  stance = supports;
  excerpt = "no ship has passed";
  source_location = none;
  confidence = none;
  analyst_note = none;
  created_at = 60;
}

-- The tables after the event, the claim and its evidence.
abbrev with_event : CaseStore ℤ
with_event = (create_event 50 closure 1 2 empty).1

abbrev with_claim : CaseStore ℤ
with_claim = insert_claim (new_claim report 3) with_event

abbrev with_evidence : CaseStore ℤ
with_evidence = insert_evidence passage with_claim

abbrev with_approval : CaseStore ℤ
with_approval = set_lifecycle_status 1 LifecycleStatus.approved with_evidence

abbrev the_event : Event ℤ
the_event = new_event closure 1

approve_early : approve_event 1 with_claim ≡ err Error.conflict
unfolding approve_event require_event get_event first? list_claims list_evidence select order_desc
    insert_desc any_evidence create_event is_high_impact_event insert_event insert_review
    insert_claim
approve_early = refl

the_approval :
    approve_event 1 with_evidence ≡ ok (in_state LifecycleStatus.approved the_event, with_approval)
unfolding approve_event require_event get_event first? list_claims list_evidence select order_desc
    insert_desc any_evidence create_event is_high_impact_event insert_event insert_review
    insert_claim insert_evidence
the_approval = refl

approve_event-Approves_example :
    Approves 1 with_evidence (in_state LifecycleStatus.approved the_event) with_approval
approve_event-Approves_example =
    approve_event-Approves 1 with_evidence (in_state LifecycleStatus.approved the_event)
      with_approval the_approval

the_claim : create_claim report 3 with_event ≡ ok (new_claim report 3, with_claim)
unfolding create_claim get_actor get_event first? create_event is_high_impact_event insert_event
    insert_review
the_claim = refl

the_evidence : add_evidence passage with_claim ≡ ok (passage, with_evidence)
unfolding add_evidence get_claim get_document first? insert_claim create_event is_high_impact_event
    insert_event insert_review
the_evidence = refl

history : History.Reach empty with_approval
history =
    History.next
      (History.next
        (History.next (History.next History.here (History.create_event 50 closure 1 2 empty))
          (History.create_claim report 3 (new_claim report 3) with_event with_claim the_claim))
        (History.add_evidence passage passage with_claim with_evidence the_evidence))
      (History.approve 1 (in_state LifecycleStatus.approved the_event) with_evidence with_approval
        the_approval)

Reach-Vouched_example : All (Vouched with_approval) with_approval.events
Reach-Vouched_example = Reach-Vouched tt history

-- A later location leaves the approved event as it is.
abbrev port : EventLocation ℤ
port = record {
  id = 9;
  event_id = 1;
  name = "Strait";
  country_actor_id = some 7;
  latitude = none;
  longitude = none;
  location_precision = none;
}

abbrev with_port : CaseStore ℤ
with_port = insert_location port with_approval

the_port : add_location port with_approval ≡ ok with_port
unfolding add_location require_event get_event get_actor first? set_lifecycle_status update
    insert_evidence insert_claim create_event is_high_impact_event insert_event insert_review
the_port = refl

stored_event : get_event 1 with_approval ≡ some (in_state LifecycleStatus.approved the_event)
unfolding get_event first? set_lifecycle_status update insert_evidence insert_claim create_event
    is_high_impact_event insert_event insert_review
stored_event = refl

Reach-settled_example : get_event 1 with_port ≡ some (in_state LifecycleStatus.approved the_event)
Reach-settled_example =
    Reach-settled 1 (in_state LifecycleStatus.approved the_event) stored_event refl
      (History.next History.here (History.add_location port with_approval with_port the_port))

abbrev seen : ReviewItem
seen = closed ReviewStatus.approved (acknowledged_by 2 none) 2 80 (impact_review 50 closure 1 2)

the_decision :
    decide (acknowledge none) 80 2 2 with_event
    ≡ ok (seen, close_review 2 ReviewStatus.approved (acknowledged_by 2 none) 2 80 with_event)
unfolding decide acknowledge_high_impact_event require_pending get_review first? create_event
    is_high_impact_event insert_event insert_review
the_decision = refl

decide-once_example :
    (get_review 2 (close_review 2 ReviewStatus.approved (acknowledged_by 2 none) 2 80 with_event)
      ≡ some seen)
    × (review_status_eq seen.status ReviewStatus.pending ≡ false)
    × ((d' : Decision) (now' user' : ℕ)
        → decide d' now' 2 user'
            (close_review 2 ReviewStatus.approved (acknowledged_by 2 none) 2 80 with_event)
          ≡ err Error.conflict)
decide-once_example =
    decide-once (acknowledge none) 80 2 2 with_event seen
      (close_review 2 ReviewStatus.approved (acknowledged_by 2 none) 2 80 with_event) the_decision

abbrev similar : String → String → ℤ
similar a b = if str_eq a b then pos 100000 else pos 60000

abbrev thresholds : Thresholds ℤ
thresholds = record { auto_threshold = pos 92000; review_threshold = pos 50000 }

abbrev pool : List ActorCandidate
pool =
    record { actor_id = 7; canonical_name = "Iran"; aliases = [] }
    ∷ record { actor_id = 8; canonical_name = "Iraq"; aliases = "Republic of Iraq" ∷ [] }
    ∷ []

-- A name that is an alias resolves; one that is close to both is asked about.
resolved_alias :
    (resolve similar thresholds 10 20 "Republic of Iraq" "claimant" "claim" 3 none none pool []).0
    ≡ record { actor_id = some 8; review_item_id = none }
unfolding resolve resolve_confident auto_resolved is_auto_resolvable rank_candidates sort_scored
    insert_scored
resolved_alias = refl

asked :
    (resolve similar thresholds 10 20 "Irak" "claimant" "claim" 3 none none pool []).0
    ≡ record { actor_id = none; review_item_id = some 20 }
unfolding resolve resolve_confident auto_resolved is_auto_resolvable rank_candidates sort_scored
    insert_scored
asked = refl

abbrev shown : List (ScoredCandidate ℤ)
shown = surfaced_of (pos 50000) (rank_candidates similar "Irak" pool)

resolve-decides_example :
    ((i : ℕ) × (resolve similar thresholds 10 20 "Irak" "claimant" "claim" 3 none none pool []
        ≡ (record { actor_id = some i; review_item_id = none }, []))
      × ((none ≡ some i) ⊎ IsBest thousandths-IsOrdered similar (pos 92000) "Irak" pool i))
    ⊎ ((resolve similar thresholds 10 20 "Irak" "claimant" "claim" 3 none none pool [] ≡ (
      record { actor_id = none; review_item_id = some 20 },
      [] ++ (resolution_review 10 20 "claimant" "claim" 3 none shown ∷ []),
    ))
        × (length shown ≤ 5)
        × All (λ c. pos 50000 ≼ c.score) shown)
resolve-decides_example =
    resolve-decides thousandths-IsOrdered similar thresholds 10 20 "Irak" "claimant" "claim" 3 none
      none pool []
