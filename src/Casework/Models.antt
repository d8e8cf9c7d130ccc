-- ===== src/Casework/Models.antt =====
-- src/mei/domain/events/models.py, claims/models.py and review/models.py: the rows of the casework
-- tables, with the enumerations of src/mei/shared/enums.py that they use. A UUID is a number.
use middle_east_geopolitic.Common.{false, true, ℕ, String, Bool, Option, List, ◌==◌}
use middle_east_geopolitic.Common.Int.{ℤ}

pub data LifecycleStatus : Type 0 where
  observed extracted assessed approved superseded rejected : LifecycleStatus

-- `_TERMINAL_STATUSES`
abbrev pub is_terminal : LifecycleStatus → Bool
is_terminal LifecycleStatus.approved = true
is_terminal LifecycleStatus.rejected = true
is_terminal LifecycleStatus.superseded = true
is_terminal _ = false

pub data VerificationStatus : Type 0 where
  unreviewed unsupported single_source partially_corroborated verified : VerificationStatus
  disputed contradicted false_claim unverifiable : VerificationStatus

pub data EvidenceStance : Type 0 where
  supports contradicts partially_supports contextualizes repeats : EvidenceStance

pub data ReviewType : Type 0 where
  entity_resolution event_duplicate high_impact_event : ReviewType

abbrev review_type_rank : ReviewType → ℕ
review_type_rank entity_resolution = 0
review_type_rank event_duplicate = 1
review_type_rank high_impact_event = 2

abbrev pub review_type_eq : ReviewType → ReviewType → Bool
review_type_eq a b = review_type_rank a == review_type_rank b

pub data ReviewStatus : Type 0 where
  pending approved rejected : ReviewStatus

abbrev review_status_rank : ReviewStatus → ℕ
review_status_rank ReviewStatus.pending = 0
review_status_rank ReviewStatus.approved = 1
review_status_rank ReviewStatus.rejected = 2

abbrev pub review_status_eq : ReviewStatus → ReviewStatus → Bool
review_status_eq a b = review_status_rank a == review_status_rank b

pub record Event (F : Type 0) : Type 0 where
  pub id : ℕ
  pub event_type : String
  pub title : String
  pub summary : Option String
  pub started_at : ℕ
  pub ended_at : Option ℕ
  pub time_precision : Option String
  pub severity : Option ℤ
  pub strategic_significance : Option String
  pub verification_status : VerificationStatus
  pub confidence : Option F
  pub lifecycle_status : LifecycleStatus
  pub evidence_bundle_id : Option ℕ
  pub supersedes_event_id : Option ℕ

-- The primary key is the event, the actor and the role.
pub record EventActor (F : Type 0) : Type 0 where
  pub event_id : ℕ
  pub actor_id : ℕ
  pub role : String
  pub participation_status : Option String
  pub confidence : Option F

pub record EventLocation (F : Type 0) : Type 0 where
  pub id : ℕ
  pub event_id : ℕ
  pub name : String
  pub country_actor_id : Option ℕ
  pub latitude : Option F
  pub longitude : Option F
  pub location_precision : Option String

pub record EventImpact (F : Type 0) : Type 0 where
  pub id : ℕ
  pub event_id : ℕ
  pub impact_type : String
  pub magnitude : Option F
  pub unit : Option String
  pub estimate_low : Option F
  pub estimate_high : Option F
  pub confidence : Option F

pub record Claim (F : Type 0) : Type 0 where
  pub id : ℕ
  pub claim_text : String
  pub claim_type : String
  pub claimant_actor_id : Option ℕ
  pub subject_actor_id : Option ℕ
  pub event_id : Option ℕ
  pub verification_status : VerificationStatus
  pub confidence : Option F
  pub lifecycle_status : LifecycleStatus
  pub created_by_type : String
  pub created_by_id : Option ℕ

pub record ClaimEvidence (F : Type 0) : Type 0 where
  pub id : ℕ
  pub claim_id : ℕ
  pub document_id : ℕ
  pub chunk_id : Option ℕ
  pub stance : EvidenceStance
  pub excerpt : String
  pub source_location : Option String
  pub confidence : Option F
  pub analyst_note : Option String
  pub created_at : ℕ

-- `target_id` of the subject is a text that may be no UUID.
pub data RawId : Type 0 where
  malformed : RawId
  uuid : ℕ → RawId

-- The keys of `subject_json` that say what to decide, `None` where the key is absent. The mention and the
-- document that entity resolution adds are only shown.
pub record Subject : Type 0 where
  pub link_kind : Option String
  pub target_type : Option String
  pub target_id : Option RawId
  pub event_role : Option String
  pub event_id : Option ℕ
  pub event_type : Option String
  pub strategic_significance : Option String

-- `resolution_json`
pub data Resolution : Type 0 where
  resolved_actor_id : ℕ → Resolution
  acknowledged_by : ℕ → Option String → Resolution
  no_resolution : Resolution

pub record ReviewItem : Type 0 where
  pub id : ℕ
  pub review_type : ReviewType
  pub status : ReviewStatus
  pub subject : Subject
  pub candidates : List ℕ
  pub resolution : Option Resolution
  pub created_at : ℕ
  pub resolved_at : Option ℕ
  pub resolved_by : Option ℕ

-- Of actors and documents these services ask only whether an id is there.
pub record CaseStore (F : Type 0) : Type 0 where
  pub actors : List ℕ
  pub documents : List ℕ
  pub events : List (Event F)
  pub event_actors : List (EventActor F)
  pub locations : List (EventLocation F)
  pub impacts : List (EventImpact F)
  pub claims : List (Claim F)
  pub evidence : List (ClaimEvidence F)
  pub reviews : List ReviewItem
