-- ===== src/Casework/Repository.antt =====
-- src/mei/infrastructure/repositories/events.py, claims.py and review.py, and the lookups of actors.py
-- and documents.py: queries and writes on the tables of a `CaseStore`.
use middle_east_geopolitic.Casework.Models.{
  review_type_eq, review_status_eq, ReviewType, LifecycleStatus, Resolution, CaseStore,
  EventLocation, EventActor, Event, ClaimEvidence, EventImpact, ReviewItem, Claim, ReviewStatus,
}
use middle_east_geopolitic.Common.{
  none, drop, [], ◌||◌, ◌∷◌, ◌&&◌, take, id_eq, ◌++◌, ◌==◌, some, List, true, str_eq, if◌then◌else◌,
  Bool, Option, String, ℕ,
}
use middle_east_geopolitic.Common.Rows.{order_desc, select, update, first?}
use middle_east_geopolitic.Common.Result.{◌>>◌, ok, integrity, value_error, require, err, Result}

abbrev of_type : Option ReviewType → ReviewItem → Bool
of_type none r = true
of_type (some t) r = review_type_eq r.review_type t

abbrev of_status : Option ReviewStatus → ReviewItem → Bool
of_status none r = true
of_status (some t) r = review_status_eq r.status t

abbrev pub is_claim_role : String → Bool
is_claim_role role = str_eq role "claimant" || str_eq role "subject"

abbrev pub closed : ReviewStatus → Resolution → ℕ → ℕ → ReviewItem → ReviewItem
closed status resolution by at_time r = record r {
  status = status;
  resolution = some resolution;
  resolved_by = some by;
  resolved_at = some at_time;
}

module _ {F : Type 0} where
  unfoldable pub get_actor : ℕ → CaseStore F → Option ℕ
  get_actor i s = first? (λ a. a == i) s.actors

  unfoldable pub get_document : ℕ → CaseStore F → Option ℕ
  get_document i s = first? (λ d. d == i) s.documents

  unfoldable pub get_event : ℕ → CaseStore F → Option (Event F)
  get_event i s = first? (λ e. e.id == i) s.events

  unfoldable pub get_claim : ℕ → CaseStore F → Option (Claim F)
  get_claim i s = first? (λ c. c.id == i) s.claims

  unfoldable pub get_review : ℕ → CaseStore F → Option ReviewItem
  get_review i s = first? (λ r. r.id == i) s.reviews

  abbrev pub is_claim_of : Option ℕ → Claim F → Bool
  is_claim_of none c = true
  is_claim_of (some i) c = id_eq c.event_id (some i)

  -- Both orders of `limit` and `where` in the statement make the same query: the filter comes first.
  unfoldable pub list_claims : Option ℕ → ℕ → ℕ → CaseStore F → List (Claim F)
  list_claims event_id limit offset s =
      take limit (drop offset (order_desc (λ c. c.id) (select (is_claim_of event_id) s.claims)))

  abbrev pub is_evidence_of : ℕ → ClaimEvidence F → Bool
  is_evidence_of i v = v.claim_id == i

  -- The order, by creation, is that of the table.
  unfoldable pub list_evidence : ℕ → CaseStore F → List (ClaimEvidence F)
  list_evidence i s = select (is_evidence_of i) s.evidence

  -- `ReviewRepository.list_all`
  unfoldable pub list_reviews :
      Option ReviewType → Option ReviewStatus → ℕ → ℕ → CaseStore F → List ReviewItem
  list_reviews review_type status limit offset s = take limit (
      drop offset (
        order_desc (λ r. r.created_at)
          (select (λ (r : ReviewItem). of_type review_type r && of_status status r) s.reviews)))

  unfoldable pub insert_event : Event F → CaseStore F → CaseStore F
  insert_event e s = record s { events = s.events ++ (e ∷ []) }

  unfoldable pub insert_claim : Claim F → CaseStore F → CaseStore F
  insert_claim c s = record s { claims = s.claims ++ (c ∷ []) }

  unfoldable pub insert_evidence : ClaimEvidence F → CaseStore F → CaseStore F
  insert_evidence v s = record s { evidence = s.evidence ++ (v ∷ []) }

  unfoldable pub insert_review : ReviewItem → CaseStore F → CaseStore F
  insert_review r s = record s { reviews = s.reviews ++ (r ∷ []) }

  abbrev pub same_link : EventActor F → EventActor F → Bool
  same_link l k = l.event_id == k.event_id && l.actor_id == k.actor_id && str_eq l.role k.role

  -- The primary key refuses a second row for the event, the actor and the role.
  unfoldable pub insert_event_actor : EventActor F → CaseStore F → Result (CaseStore F)
  insert_event_actor l s = elim (first? (same_link l) s.event_actors) [
    | some _ ↦ err integrity
    | none ↦ ok (record s { event_actors = s.event_actors ++ (l ∷ []) })
  ]

  unfoldable pub insert_location : EventLocation F → CaseStore F → CaseStore F
  insert_location l s = record s { locations = s.locations ++ (l ∷ []) }

  unfoldable pub insert_impact : EventImpact F → CaseStore F → CaseStore F
  insert_impact m s = record s { impacts = s.impacts ++ (m ∷ []) }

  unfoldable pub set_lifecycle_status : ℕ → LifecycleStatus → CaseStore F → CaseStore F
  set_lifecycle_status i status s = record s {
    events = update (λ e. e.id == i) (λ e. record e { lifecycle_status = status }) s.events;
  }

  abbrev pub with_actor : String → ℕ → Claim F → Claim F
  with_actor role actor c =
      if str_eq role "claimant"
      then record c { claimant_actor_id = some actor }
      else record c { subject_actor_id = some actor }

  unfoldable pub set_actor : ℕ → String → ℕ → CaseStore F → Result (CaseStore F)
  set_actor i role actor s =
      require (is_claim_role role) value_error
      >> ok (record s { claims = update (λ c. c.id == i) (with_actor role actor) s.claims })

  -- `ReviewRepository.resolve`
  unfoldable pub close_review : ℕ → ReviewStatus → Resolution → ℕ → ℕ → CaseStore F → CaseStore F
  close_review i status resolution by at_time s = record s {
    reviews = update (λ r. r.id == i) (closed status resolution by at_time) s.reviews;
  }
