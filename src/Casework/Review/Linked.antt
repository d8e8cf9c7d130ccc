-- ===== src/Casework/Review/Linked.antt =====
-- What linking a mention to an actor changes: `resolve_entity_resolution` of src/mei/application/services/review.py.
use middle_east_geopolitic.Common.{◌⊎◌, if_both, inr, inl, none, some}
use middle_east_geopolitic.Common.{refl, ◌==◌, subst, some, arith, ◌≡◌, String, Option, ℕ}
use middle_east_geopolitic.Casework.Review.{new_link, link_target, apply_link}
use middle_east_geopolitic.Casework.Events.{require_event, add_actor}
use middle_east_geopolitic.Casework.Repository.{
  with_actor, is_claim_role, get_claim, insert_event_actor, set_actor,
}
use middle_east_geopolitic.Casework.Models.{Claim, malformed, uuid, EventActor, RawId, CaseStore}
use middle_east_geopolitic.Common.Result.{
  value_error, ◌>>=◌, not_found, or_raise, ok_inj, Error, err, require, bind-ok, ok, Result,
}
use middle_east_geopolitic.Common.Rows.{update}

module _ {F : Type 0} where
  -- What applying a link leaves: the queue, the events and the evidence, and the claims but for one
  -- reference to an actor.
  abbrev pub LinkedFrom : CaseStore F → CaseStore F → Type 0
  LinkedFrom s s' =
      (s'.reviews ≡ s.reviews)
      × (s'.events ≡ s.events)
      × (s'.evidence ≡ s.evidence)
      × ((s'.claims ≡ s.claims)
          ⊎ ((i : ℕ) × (role : String) × (actor : ℕ) × (s'.claims
                ≡ update (λ (c : Claim F). c.id == i) (with_actor role actor) s.claims)))

  pub add_actor-rest :
      (l : EventActor F) (s s' : CaseStore F)
      → add_actor l s ≡ ok s'
      → (s'.reviews ≡ s.reviews)
        × (s'.events ≡ s.events)
        × (s'.evidence ≡ s.evidence)
        × (s'.claims ≡ s.claims)
  unfolding add_actor insert_event_actor require_event
  add_actor-rest l s s' h = ground arith

  add_actor-LinkedFrom :
      (l : EventActor F) (s s' : CaseStore F) → add_actor l s ≡ ok s' → LinkedFrom s s'
  add_actor-LinkedFrom l s s' h = let (q, e, v, c) = add_actor-rest l s s' h in (q, e, v, inl c)

  set_actor-LinkedFrom :
      (i : ℕ) (role : String) (actor : ℕ) (s s' : CaseStore F)
      → set_actor i role actor s ≡ ok s'
      → LinkedFrom s s'
  unfolding set_actor
  set_actor-LinkedFrom i role actor s s' h =
      let (_, _, p) = bind-ok (require (is_claim_role role) value_error) _ h in
      subst (λ t. LinkedFrom s t) (ok_inj p) (refl, refl, refl, inr (i, role, actor, refl))

  claimed-LinkedFrom :
      (i : ℕ) (role : String) (actor : ℕ) (s s' : CaseStore F)
      → (or_raise (get_claim i s) not_found >>= λ _. set_actor i role actor s) ≡ ok s'
      → LinkedFrom s s'
  claimed-LinkedFrom i role actor s s' h =
      let (_, _, p) = bind-ok (or_raise (get_claim i s) not_found) _ h in
      set_actor-LinkedFrom i role actor s s' p

  not_linked :
      (s s' : CaseStore F)
      → ◌≡◌ {A = Result (CaseStore F)} (err Error.conflict) (ok s')
      → LinkedFrom s s'
  not_linked s s' h = cc

  link_target-LinkedFrom :
      (target_type link_kind : String) (target : ℕ) (role : Option String) (actor : ℕ)
      (s s' : CaseStore F)
      → link_target target_type link_kind target role actor s ≡ ok s'
      → LinkedFrom s s'
  unfolding link_target
  link_target-LinkedFrom target_type link_kind target role actor s s' =
      if_both (λ (r : Result (CaseStore F)). r ≡ ok s' → LinkedFrom s s') _ _ _
        (add_actor-LinkedFrom (new_link target actor role) s s')
        (if_both (λ (r : Result (CaseStore F)). r ≡ ok s' → LinkedFrom s s') _ _ _
          (claimed-LinkedFrom target link_kind actor s s') (not_linked s s'))

  pub apply_link-LinkedFrom :
      (kind target_type : Option String) (target : Option RawId) (role : Option String) (actor : ℕ)
      (s s' : CaseStore F)
      → apply_link kind target_type target role actor s ≡ ok s'
      → LinkedFrom s s'
  unfolding apply_link
  apply_link-LinkedFrom (some kind) (some target_type) (some (uuid target)) role actor s s' h =
      link_target-LinkedFrom target_type kind target role actor s s' h
  apply_link-LinkedFrom (some kind) (some target_type) (some malformed) role actor s s' h = cc
  apply_link-LinkedFrom (some kind) (some target_type) none role actor s s' h = cc
  apply_link-LinkedFrom (some kind) none target role actor s s' h = cc
  apply_link-LinkedFrom none (some target_type) target role actor s s' h = cc
  apply_link-LinkedFrom none none (some target) role actor s s' h = cc
  apply_link-LinkedFrom none none none role actor s s' h =
      subst (λ t. LinkedFrom s t) (ok_inj h) (refl, refl, refl, inl refl)
