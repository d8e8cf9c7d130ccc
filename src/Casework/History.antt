-- ===== src/Casework/History.antt =====
-- Every history of the casework tables: the calls of the three services that succeed, in any order. A
-- call that raises changes nothing, so it is no step.
pub mod Effects
pub mod Steps
pub mod Invariants
use middle_east_geopolitic.Casework.Events
use middle_east_geopolitic.Casework.Claims
use middle_east_geopolitic.Casework.Repository.{
  get_event, insert_evidence, insert_claim, insert_review, set_lifecycle_status, insert_event,
}
use middle_east_geopolitic.Casework.Models.{
  is_terminal, extracted, EventImpact, EventLocation, high_impact_event, EventActor, Event, Claim,
  LifecycleStatus, ClaimEvidence, ReviewItem, CaseStore,
}
use middle_east_geopolitic.Common.{
  ◌==◌, false, refl, true, inr, [], ◌∷◌, inl, some, ◌++◌, List, Elem, if_both, Bool-cases, ◌≡◌, ℕ,
}
use middle_east_geopolitic.Casework.Events.{
  in_state, reject_event, approve_event, impact_review, new_event, is_high_impact_event, NewEvent,
}
use middle_east_geopolitic.Casework.Events.Approval.{Supported}
use middle_east_geopolitic.Common.Rows.Laws.{Elem-append}
use middle_east_geopolitic.Common.Result.{ok}
use middle_east_geopolitic.Casework.Claims.{NewClaim}
use middle_east_geopolitic.Casework.Review.Once.{decide, Decision}
use middle_east_geopolitic.Common.Rows.{update}

module _ {F : Type 0} where
  pub data Step : CaseStore F → CaseStore F → Type 0 where
    create_event :
        (now : ℕ) (q : NewEvent) (fresh fresh_item : ℕ) (s : CaseStore F)
        → Step s (Events.create_event now q fresh fresh_item s).1
    add_actor : (l : EventActor F) (s t : CaseStore F) → Events.add_actor l s ≡ ok t → Step s t
    add_location :
        (l : EventLocation F) (s t : CaseStore F) → Events.add_location l s ≡ ok t → Step s t
    add_impact : (m : EventImpact F) (s t : CaseStore F) → Events.add_impact m s ≡ ok t → Step s t
    approve : (i : ℕ) (e : Event F) (s t : CaseStore F) → approve_event i s ≡ ok (e, t) → Step s t
    dismiss_event :
        (i : ℕ) (e : Event F) (s t : CaseStore F) → reject_event i s ≡ ok (e, t) → Step s t
    create_claim :
        (q : NewClaim) (fresh : ℕ) (c : Claim F) (s t : CaseStore F)
        → Claims.create_claim q fresh s ≡ ok (c, t)
        → Step s t
    add_evidence :
        (v w : ClaimEvidence F) (s t : CaseStore F) → Claims.add_evidence v s ≡ ok (w, t) → Step s t
    decide_review :
        (d : Decision) (now i user : ℕ) (r : ReviewItem) (s t : CaseStore F)
        → decide d now i user s ≡ ok (r, t)
        → Step s t

  pub data Reach (s : CaseStore F) : CaseStore F → Type 0 where
    here : Reach s s
    next : {t u : CaseStore F} → Reach s t → Step t u → Reach s u
