-- ===== src/Casework/Claims.antt =====
-- src/mei/application/services/claims.py: claims and the passages of documents that bear on them.

-- The arguments of `create_claim`, with the id of the principal.
use middle_east_geopolitic.Common.{some, none, Option, String, ℕ}
use middle_east_geopolitic.Casework.Models.{observed, unreviewed, Claim, CaseStore, ClaimEvidence}
use middle_east_geopolitic.Common.Result.{◌>>=◌, not_found, ◌>>◌, ok, or_raise, Result}
use middle_east_geopolitic.Casework.Events.{require_actor}
use middle_east_geopolitic.Casework.Repository.{
  insert_evidence, get_document, insert_claim, get_event, get_claim,
}

pub record NewClaim : Type 0 where
  pub claim_text : String
  pub claim_type : String
  pub user_id : ℕ
  pub claimant_actor_id : Option ℕ
  pub subject_actor_id : Option ℕ
  pub event_id : Option ℕ

module _ {F : Type 0} where
  abbrev pub require_event_of : Option ℕ → CaseStore F → Result (Unit {0})
  require_event_of none s = ok tt
  require_event_of (some i) s = or_raise (get_event i s) not_found >>= λ _. ok tt

  abbrev pub new_claim : NewClaim → ℕ → Claim F
  new_claim q fresh = record {
    id = fresh;
    claim_text = q.claim_text;
    claim_type = q.claim_type;
    claimant_actor_id = q.claimant_actor_id;
    subject_actor_id = q.subject_actor_id;
    event_id = q.event_id;
    verification_status = unreviewed;
    confidence = none;
    lifecycle_status = observed;
    created_by_type = "user";
    created_by_id = some q.user_id;
  }

  unfoldable pub create_claim : NewClaim → ℕ → CaseStore F → Result (Claim F × CaseStore F)
  create_claim q fresh s =
      require_actor q.claimant_actor_id s
      >> require_actor q.subject_actor_id s
      >> require_event_of q.event_id s
      >> ok (new_claim q fresh, insert_claim (new_claim q fresh) s)

  unfoldable pub add_evidence :
      ClaimEvidence F → CaseStore F → Result (ClaimEvidence F × CaseStore F)
  add_evidence v s = or_raise (get_claim v.claim_id s) not_found >>= λ _.
      or_raise (get_document v.document_id s) not_found >>= λ _. ok (v, insert_evidence v s)
