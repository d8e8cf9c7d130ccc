-- ===== src/Casework/History/Steps.antt =====
-- Each step of a history by its effect.
use middle_east_geopolitic.Casework.Events
use middle_east_geopolitic.Casework.Claims
use middle_east_geopolitic.Casework.History.{
  Step, create_event, add_actor, add_location, add_impact, approve, dismiss_event, create_claim,
  add_evidence, decide_review,
}
use middle_east_geopolitic.Casework.Repository.{
  get_document, get_claim, insert_evidence, insert_claim, get_event, set_lifecycle_status,
  insert_location, insert_impact,
}
use middle_east_geopolitic.Casework.Claims.{require_event_of, new_claim, NewClaim}
use middle_east_geopolitic.Casework.Models.{
  is_terminal, EventImpact, Claim, LifecycleStatus, EventLocation, Event, ClaimEvidence, CaseStore,
}
use middle_east_geopolitic.Casework.Events.{
  in_state, require_not_terminal, is_high_impact_event, require_actor, require_event, reject_event,
}
use middle_east_geopolitic.Common.{refl, ap, sym, subst, false, arith, some, ℕ, ◌≡◌}
use middle_east_geopolitic.Casework.History.Effects.{
  Closes-Effect, Closes-Keeps, add_evidence-Keeps, create_claim-Keeps, create_event-Effect,
  create_event-Keeps, set_lifecycle_status-Keeps, changed, kept, Effect, Keeps,
}
use middle_east_geopolitic.Common.Result.{
  require_sound, ok_inj, or_raise_sound, not_found, ◌>>◌, or_raise, bind-ok, ok,
}
use middle_east_geopolitic.Casework.Events.Approval.{approve_event-Approves, Supported}
use middle_east_geopolitic.Casework.Review.Once.{decide-Closes}
use middle_east_geopolitic.Casework.Review.Linked.{add_actor-rest}

module _ {F : Type 0} where
  add_location-rest :
      (l : EventLocation F) (s t : CaseStore F)
      → Events.add_location l s ≡ ok t
      → (t.reviews ≡ s.reviews)
        × (t.events ≡ s.events)
        × (t.evidence ≡ s.evidence)
        × (t.claims ≡ s.claims)
  unfolding Events.add_location insert_location require_event
  add_location-rest l s t h = ground arith

  add_impact-rest :
      (m : EventImpact F) (s t : CaseStore F)
      → Events.add_impact m s ≡ ok t
      → (t.reviews ≡ s.reviews)
        × (t.events ≡ s.events)
        × (t.evidence ≡ s.evidence)
        × (t.claims ≡ s.claims)
  unfolding Events.add_impact insert_impact require_event
  add_impact-rest m s t h = ground arith

  -- A call that leaves the four tables alone.
  alone :
      (s t : CaseStore F)
      → (t.reviews ≡ s.reviews)
        × (t.events ≡ s.events)
        × (t.evidence ≡ s.evidence)
        × (t.claims ≡ s.claims)
      → Keeps s t × Effect s t
  alone s t (q, e, v, c) = (
    ((λ i (d, w, m, n, k, h). (d, w, rw c m, rw v n, k, h)), (λ i (r, m, k, h). (r, rw q m, k, h))),
    kept e,
  )

  reject_event-rest :
      (i : ℕ) (e : Event F) (s t : CaseStore F)
      → reject_event i s ≡ ok (e, t)
      → (d : Event F) × (get_event i s ≡ some d)
        × (is_terminal d.lifecycle_status ≡ false)
        × (t ≡ set_lifecycle_status i LifecycleStatus.rejected s)
  unfolding reject_event require_event
  reject_event-rest i e s t h =
      let (before, p, h1) = bind-ok (or_raise (get_event i s) not_found) _ h in
      let (_, q, h2) = bind-ok (require_not_terminal before) _ h1 in
      (
        before,
        or_raise_sound _ _ _ p,
        ground (arith, require_sound _ _ q),
        ap (λ x. x.1) (sym (ok_inj h2)),
      )

  create_claim-rest :
      (q : NewClaim) (fresh : ℕ) (c : Claim F) (s t : CaseStore F)
      → Claims.create_claim q fresh s ≡ ok (c, t)
      → t ≡ insert_claim (new_claim q fresh) s
  unfolding Claims.create_claim
  create_claim-rest q fresh c s t h =
      let (_, _, h1) =
        bind-ok
          (require_actor q.claimant_actor_id s
            >> require_actor q.subject_actor_id s
            >> require_event_of q.event_id s)
          _ h in
      ap (λ x. x.1) (sym (ok_inj h1))

  add_evidence-rest :
      (v w : ClaimEvidence F) (s t : CaseStore F)
      → Claims.add_evidence v s ≡ ok (w, t)
      → t ≡ insert_evidence v s
  unfolding Claims.add_evidence
  add_evidence-rest v w s t h =
      let (_, _, h1) = bind-ok (or_raise (get_claim v.claim_id s) not_found) _ h in
      let (_, _, h2) = bind-ok (or_raise (get_document v.document_id s) not_found) _ h1 in
      ap (λ x. x.1) (sym (ok_inj h2))

  set_lifecycle_status-Effect :
      (i : ℕ) (status : LifecycleStatus) (e : Event F) (s t : CaseStore F)
      → get_event i s ≡ some e
      → is_terminal e.lifecycle_status ≡ false
      → (status ≡ LifecycleStatus.approved → Supported i s)
      → t ≡ set_lifecycle_status i status s
      → Keeps s t × Effect s t
  unfolding set_lifecycle_status
  set_lifecycle_status-Effect i status e s t g o k p =
      subst (λ x. Keeps s x × Effect s x) (sym p)
        (set_lifecycle_status-Keeps i status s, changed i status e g o refl k)

  pub Step-Effect : {s t : CaseStore F} → Step s t → Keeps s t × Effect s t
  unfolding insert_claim insert_evidence
  Step-Effect (create_event now q fresh fresh_item s) =
      (create_event-Keeps now q fresh fresh_item s, create_event-Effect now q fresh fresh_item s)
  Step-Effect (add_actor l s t h) = alone s t (add_actor-rest l s t h)
  Step-Effect (add_location l s t h) = alone s t (add_location-rest l s t h)
  Step-Effect (add_impact m s t h) = alone s t (add_impact-rest m s t h)
  Step-Effect (approve i e s t h) =
      let a = approve_event-Approves i s e t h in
      set_lifecycle_status-Effect i LifecycleStatus.approved a.before s t a.was_there a.was_open
        (λ _. a.supported) a.is_stored
  Step-Effect (dismiss_event i e s t h) =
      let (d, g, o, p) = reject_event-rest i e s t h in
      set_lifecycle_status-Effect i LifecycleStatus.rejected d s t g o (λ k. cc) p
  Step-Effect (create_claim q fresh c s t h) =
      subst (λ x. Keeps s x × Effect s x) (sym (create_claim-rest q fresh c s t h))
        (create_claim-Keeps (new_claim q fresh) s, kept refl)
  Step-Effect (add_evidence v w s t h) =
      subst (λ x. Keeps s x × Effect s x) (sym (add_evidence-rest v w s t h))
        (add_evidence-Keeps v s, kept refl)
  Step-Effect (decide_review d now i user r s t h) =
      let c = decide-Closes d now i user s r t h in
      (Closes-Keeps i r s t c, Closes-Effect i r s t c)
