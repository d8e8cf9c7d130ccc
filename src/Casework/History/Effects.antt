-- ===== src/Casework/History/Effects.antt =====
-- What each call on the casework tables does to the events, and what none takes away.
use middle_east_geopolitic.Casework.Events
use middle_east_geopolitic.Casework.Repository.{
  insert_event, get_event, closed, with_actor, insert_evidence, insert_claim, set_lifecycle_status,
  close_review, insert_review,
}
use middle_east_geopolitic.Casework.Models.{
  is_terminal, extracted, high_impact_event, Resolution, Event, LifecycleStatus, ClaimEvidence,
  ReviewItem, Claim, ReviewStatus, CaseStore,
}
use middle_east_geopolitic.Common.{
  Bool-cases, false, true, sym, ◌==◌, [], if◌then◌else◌, ◌∷◌, some, str_eq, ◌∙◌, ◌++◌, inr, List,
  if_both, refl, Elem, inl, ◌≡◌, ℕ, String,
}
use middle_east_geopolitic.Casework.Review.Once.{Closes}
use middle_east_geopolitic.Casework.Events.Approval.{Supported}
use middle_east_geopolitic.Common.Rows.Laws.{update_complete, Elem-append}
use middle_east_geopolitic.Casework.Events.{
  impact_review, new_event, NewEvent, in_state, is_high_impact_event,
}
use middle_east_geopolitic.Common.Rows.{update}
use middle_east_geopolitic.Casework.Review.Linked.{LinkedFrom}

module _ {F : Type 0} where
  -- An item of the queue that asks to look at the event.
  abbrev pub Queued : ℕ → CaseStore F → Type 0
  Queued i s =
      (r : ReviewItem) × Elem r s.reviews
      × (r.review_type ≡ high_impact_event)
      × (r.subject.event_id ≡ some i)

  -- What no call takes away.
  abbrev pub Keeps : CaseStore F → CaseStore F → Type 0
  Keeps s t = ((i : ℕ) → Supported i s → Supported i t) × ((i : ℕ) → Queued i s → Queued i t)

  -- What a call does to the table of events.
  pub data Effect (s t : CaseStore F) : Type 0 where
    kept : t.events ≡ s.events → Effect s t
    added :
        (e : Event F)
        → t.events ≡ s.events ++ (e ∷ [])
        → e.lifecycle_status ≡ extracted
        → (is_high_impact_event e.event_type e.strategic_significance ≡ true → Queued e.id t)
        → Effect s t
    changed :
        (i : ℕ) (status : LifecycleStatus) (e : Event F)
        → get_event i s ≡ some e
        → is_terminal e.lifecycle_status ≡ false
        → t.events ≡ update (λ (d : Event F). d.id == i) (in_state status) s.events
        → (status ≡ LifecycleStatus.approved → Supported i s)
        → Effect s t

  in_queue : (r : ReviewItem) (s : CaseStore F) → Elem r (insert_review r s).reviews
  unfolding insert_review
  in_queue r s = last r s.reviews
    where
      last : (r : ReviewItem) (rs : List ReviewItem) → Elem r (rs ++ (r ∷ []))
      last r [] = inl refl
      last r (x ∷ xs) = inr (last r xs)

  pub create_event-Keeps :
      (now : ℕ) (q : NewEvent) (fresh fresh_item : ℕ) (s : CaseStore F)
      → Keeps s (Events.create_event now q fresh fresh_item s).1
  unfolding Events.create_event insert_event insert_review
  create_event-Keeps now q fresh fresh_item s =
      if_both (λ (t : CaseStore F). Keeps s t)
        (is_high_impact_event q.event_type q.strategic_significance) _ _
        ((λ i h. h), (λ i (r, m, k, e). (r, Elem-append s.reviews _ r m, k, e)))
        ((λ i h. h), (λ i h. h))

  pub create_event-Effect :
      (now : ℕ) (q : NewEvent) (fresh fresh_item : ℕ) (s : CaseStore F)
      → Effect s (Events.create_event now q fresh fresh_item s).1
  unfolding Events.create_event insert_event insert_review
  create_event-Effect now q fresh fresh_item s =
      elim (Bool-cases (is_high_impact_event q.event_type q.strategic_significance)) [
        | inl e ↦
            rw (e, Events.create_event)
              (added (new_event q fresh) refl refl (λ _. (
                impact_review now q fresh fresh_item,
                in_queue _ (insert_event (new_event q fresh) s),
                refl,
                refl,
              )))
        | inr e ↦ rw (e, Events.create_event) (added (new_event q fresh) refl refl (λ k. cc))
      ]

  pub set_lifecycle_status-Keeps :
      (i : ℕ) (status : LifecycleStatus) (s : CaseStore F)
      → Keeps s (set_lifecycle_status i status s)
  unfolding set_lifecycle_status
  set_lifecycle_status-Keeps i status s = ((λ j h. h), (λ j h. h))

  pub create_claim-Keeps : (c : Claim F) (s : CaseStore F) → Keeps s (insert_claim c s)
  unfolding insert_claim
  create_claim-Keeps c s =
      ((λ i (d, v, m, n, k, e). (d, v, Elem-append s.claims _ d m, n, k, e)), (λ i h. h))

  pub add_evidence-Keeps : (v : ClaimEvidence F) (s : CaseStore F) → Keeps s (insert_evidence v s)
  unfolding insert_evidence
  add_evidence-Keeps v s =
      ((λ i (d, w, m, n, k, e). (d, w, m, Elem-append s.evidence _ w n, k, e)), (λ i h. h))

  -- A row of the changed queue has the type and the subject of the row it comes from.
  close_review-Queued :
      (i : ℕ) (status : ReviewStatus) (answer : Resolution) (user now : ℕ) (s : CaseStore F) (j : ℕ)
      → Queued j s
      → Queued j (close_review i status answer user now s)
  unfolding close_review
  close_review-Queued i status answer user now s j (r, m, k, e) =
      let f = closed status answer user now in
      (
        (if r.id == i then f r else r),
        update_complete (λ (x : ReviewItem). x.id == i) f s.reviews r m,
        if_both (λ (x : ReviewItem). x.review_type ≡ high_impact_event) (r.id == i) _ _ k k,
        if_both (λ (x : ReviewItem). x.subject.event_id ≡ some j) (r.id == i) _ _ e e,
      )

  close_review-rest :
      (i : ℕ) (status : ReviewStatus) (answer : Resolution) (user now : ℕ) (s : CaseStore F)
      → ((close_review i status answer user now s).claims ≡ s.claims)
        × ((close_review i status answer user now s).evidence ≡ s.evidence)
        × ((close_review i status answer user now s).events ≡ s.events)
  unfolding close_review
  close_review-rest i status answer user now s = (refl, refl, refl)

  -- A changed claim keeps its id and its event.
  with_actor-keys :
      (role : String) (actor : ℕ) (c : Claim F)
      → ((with_actor role actor c).id ≡ c.id) × ((with_actor role actor c).event_id ≡ c.event_id)
  with_actor-keys role actor c =
      if_both (λ (d : Claim F). (d.id ≡ c.id) × (d.event_id ≡ c.event_id)) (str_eq role "claimant")
        _ _ (refl, refl) (refl, refl)

  LinkedFrom-Supported :
      (s t : CaseStore F) → LinkedFrom s t → (j : ℕ) → Supported j s → Supported j t
  LinkedFrom-Supported s t (q, e, v, inl c) j (d, w, m, n, k, h) = (d, w, rw c m, rw v n, k, h)
  LinkedFrom-Supported s t (q, e, v, inr (i, role, actor, c)) j (d, w, m, n, k, h) =
      let f = with_actor role actor in
      let keys = with_actor-keys role actor d in
      (
        (if d.id == i then f d else d),
        w,
        rw c (update_complete (λ (x : Claim F). x.id == i) f s.claims d m),
        rw v n,
        if_both (λ (x : Claim F). x.event_id ≡ some j) (d.id == i) _ _ (keys.1 ∙ k) k,
        if_both (λ (x : Claim F). w.claim_id ≡ x.id) (d.id == i) _ _ (h ∙ sym keys.0) h,
      )

  pub Closes-Keeps : (i : ℕ) (r : ReviewItem) (s t : CaseStore F) → Closes i s r t → Keeps s t
  Closes-Keeps i r s t c =
      let rest = close_review-rest c.before.id c.status c.resolution c.user c.now c.linked in
      (
        (λ j h.
            let (d, w, m, n, k, e) = LinkedFrom-Supported s c.linked c.linked_from j h in
            rw c.is_stored (d, w, rw (rest.0) m, rw (rest.1) n, k, e)),
        (λ j (x, m, k, e). rw c.is_stored (
            close_review-Queued c.before.id c.status c.resolution c.user c.now c.linked j
              (x, rw (c.linked_from.0) m, k, e))),
      )

  pub Closes-Effect : (i : ℕ) (r : ReviewItem) (s t : CaseStore F) → Closes i s r t → Effect s t
  Closes-Effect i r s t c =
      let rest = close_review-rest c.before.id c.status c.resolution c.user c.now c.linked in
      kept (rw (c.is_stored) (rest.2 ∙ c.linked_from.1))
