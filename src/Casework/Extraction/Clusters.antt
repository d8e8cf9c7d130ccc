-- ===== src/Casework/Extraction/Clusters.antt =====
-- src/mei/application/services/extraction.py: an extracted event is taken for one that is known, or
-- stored, with a review where several are plausible. The provenance, which is only kept, is left out.
-- `_ACTIVE_LIFECYCLE_STATUSES`
use middle_east_geopolitic.Casework.Extraction.Models.{Session, Reader, ExtractedEvent}
use middle_east_geopolitic.Common.{
  [], map, ◌||◌, leb, if◌then◌else◌, ◌==◌, ◌&&◌, ◌∷◌, str_eq, ◌+◌, some, true, false, none, List,
  Bool, ℕ, String,
}
use middle_east_geopolitic.Casework.Models.{
  extracted, ReviewStatus, unreviewed, event_duplicate, ReviewItem, EventActor, CaseStore, Event,
  LifecycleStatus,
}
use middle_east_geopolitic.Casework.Repository.{insert_review, insert_event}
use middle_east_geopolitic.Common.Rows.{select}

abbrev pub is_active : LifecycleStatus → Bool
is_active LifecycleStatus.extracted = true
is_active LifecycleStatus.assessed = true
is_active _ = false

abbrev pub has_id : ℕ → List ℕ → Bool
has_id i [] = false
has_id i (j ∷ js) = i == j || has_id i js

module _ {F : Type 0} where
  -- The join with the links: one of them is of the event and of one of the actors.
  abbrev pub any_link : ℕ → List ℕ → List (EventActor F) → Bool
  any_link event actors [] = false
  any_link event actors (l ∷ ls) =
      (l.event_id == event && has_id l.actor_id actors) || any_link event actors ls

  abbrev pub is_candidate : String → ℕ → ℕ → List ℕ → CaseStore F → Event F → Bool
  is_candidate event_type start end actors s e =
      str_eq e.event_type event_type
      && is_active e.lifecycle_status
      && leb start e.started_at
      && leb e.started_at end
      && any_link e.id actors s.event_actors

  -- `EventRepository.find_candidates`
  unfoldable pub find_candidates : String → ℕ → ℕ → List ℕ → CaseStore F → List (Event F)
  find_candidates event_type start end [] s = []
  find_candidates event_type start end (a ∷ more) s =
      select (is_candidate event_type start end (a ∷ more) s) s.events

  -- `{(link.actor_id, link.role) for link in event.actors}`
  abbrev pub links_of : ℕ → List (EventActor F) → List (ℕ × String)
  links_of event [] = []
  links_of event (l ∷ ls) =
      let rest = links_of event ls in
      if l.event_id == event then (l.actor_id, l.role) ∷ rest else rest

  abbrev pub event_link : ℕ → ℕ → String → EventActor F
  event_link event actor role = record {
    event_id = event;
    actor_id = actor;
    role = role;
    participation_status = none;
    confidence = none;
  }

  abbrev pub duplicate_review : ℕ → ℕ → String → List (Event F) → ReviewItem
  duplicate_review now fresh event_type candidates = record {
    id = fresh;
    review_type = event_duplicate;
    status = ReviewStatus.pending;
    subject = record {
      link_kind = none;
      target_type = none;
      target_id = none;
      event_role = none;
      event_id = none;
      event_type = some event_type;
      strategic_significance = none;
    };
    candidates = map (λ e. e.id) candidates;
    resolution = none;
    created_at = now;
    resolved_at = none;
    resolved_by = none;
  }

  abbrev pub extracted_event : ExtractedEvent → ℕ → ℕ × String → Event F
  extracted_event x fresh at_time = record {
    id = fresh;
    event_type = x.event_type;
    title = x.title;
    summary = x.summary;
    started_at = at_time.0;
    ended_at = none;
    time_precision = some at_time.1;
    severity = none;
    strategic_significance = none;
    verification_status = unreviewed;
    confidence = none;
    lifecycle_status = extracted;
    evidence_bundle_id = none;
    supersedes_event_id = none;
  }

  -- `if len(candidates) == 1: … else: …`: the id of the event, and the tables.
  abbrev pub cluster :
      Reader F → ExtractedEvent → ℕ × String → List (Event F) → Session F → ℕ × Session F
  cluster w x at_time [] p =
      let fresh = w.ids p.used in
      (
        fresh,
        record {
          used = p.used + 1;
          store = insert_event (extracted_event x fresh at_time) p.store;
        },
      )
  cluster w x at_time (e ∷ []) p = (e.id, p)
  cluster w x at_time (e ∷ f ∷ rest) p =
      let fresh = w.ids p.used in
      (
        fresh,
        record {
          used = p.used + 2;
          store =
              insert_review
                (duplicate_review w.now (w.ids (p.used + 1)) x.event_type (e ∷ f ∷ rest))
                (insert_event (extracted_event x fresh at_time) p.store);
        },
      )
