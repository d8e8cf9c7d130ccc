-- ===== src/Casework/Review/Once.antt =====
-- What a decision does to its item, and that a decided item stays decided.
use middle_east_geopolitic.Common.{inr, inl, Option-cases, some}
use middle_east_geopolitic.Common.{
  refl, ◌==◌, subst, true, sym, ap, some, false, arith, ◌≡◌, String, Option, ℕ,
}
use middle_east_geopolitic.Casework.Review.{
  finish_review, require_pending, reject, acknowledge_high_impact_event, resolve_entity_resolution,
  apply_link,
}
use middle_east_geopolitic.Casework.Repository.{get_actor, get_review, close_review, closed}
use middle_east_geopolitic.Casework.Models.{
  no_resolution, acknowledged_by, high_impact_event, resolved_actor_id, entity_resolution,
  review_type_eq, review_status_eq, Resolution, ReviewStatus, ReviewItem, CaseStore,
}
use middle_east_geopolitic.Common.Result.{
  not_found, or_raise, ◌>>◌, ok_inj, Error, err, require, bind-ok, ok, Result,
}
use middle_east_geopolitic.Common.Rows.Laws.{first?-update, first?_sound}
use middle_east_geopolitic.Casework.Review.Linked.{LinkedFrom, apply_link-LinkedFrom}

-- The three calls of `ReviewService` that close an item.
pub data Decision : Type 0 where
  link : ℕ → Decision
  acknowledge : Option String → Decision
  dismiss : Decision

module _ {F : Type 0} where
  unfoldable pub decide : Decision → ℕ → ℕ → ℕ → CaseStore F → Result (ReviewItem × CaseStore F)
  decide (link actor) now i user s = resolve_entity_resolution now i actor user s
  decide (acknowledge remark) now i user s = acknowledge_high_impact_event now i user remark s
  decide dismiss now i user s = reject now i user s

  -- The item was pending; it is closed in a store with the same queue.
  pub record Closes (i : ℕ) (s : CaseStore F) (r : ReviewItem) (s' : CaseStore F) : Type 0 where
    pub before : ReviewItem
    pub linked : CaseStore F
    pub status : ReviewStatus
    pub resolution : Resolution
    pub user : ℕ
    pub now : ℕ
    pub was_pending : require_pending i s ≡ ok before
    pub linked_from : LinkedFrom s linked
    pub decided : review_status_eq status ReviewStatus.pending ≡ false
    pub is_closed : r ≡ closed status resolution user now before
    pub is_stored : s' ≡ close_review before.id status resolution user now linked

  Closes-of :
      (i : ℕ) (s : CaseStore F) (before : ReviewItem) (linked : CaseStore F) (status : ReviewStatus)
      (resolution : Resolution) (user now : ℕ) (r : ReviewItem) (s' : CaseStore F)
      → require_pending i s ≡ ok before
      → LinkedFrom s linked
      → review_status_eq status ReviewStatus.pending ≡ false
      → finish_review before status resolution user now linked ≡ ok (r, s')
      → Closes i s r s'
  Closes-of i s before linked status resolution user now r s' p q d h = record {
    before = before;
    linked = linked;
    status = status;
    resolution = resolution;
    user = user;
    now = now;
    was_pending = p;
    linked_from = q;
    decided = d;
    is_closed = ap (λ x. x.0) (sym (ok_inj h));
    is_stored = ap (λ x. x.1) (sym (ok_inj h));
  }

  pub decide-Closes :
      (d : Decision) (now i user : ℕ) (s : CaseStore F) (r : ReviewItem) (s' : CaseStore F)
      → decide d now i user s ≡ ok (r, s')
      → Closes i s r s'
  unfolding decide resolve_entity_resolution acknowledge_high_impact_event reject
  decide-Closes (link actor) now i user s r s' h =
      let (before, p, h1) = bind-ok (require_pending i s) _ h in
      let (_, _, h2) =
        bind-ok
          (require (review_type_eq before.review_type entity_resolution) Error.conflict
            >> or_raise (get_actor actor s) not_found)
          _ h1 in
      let (linked, q, h3) = bind-ok (apply_link _ _ _ _ actor s) _ h2 in
      Closes-of i s before linked ReviewStatus.approved (resolved_actor_id actor) user now r s' p
        (apply_link-LinkedFrom _ _ _ _ actor s linked q) refl h3
  decide-Closes (acknowledge remark) now i user s r s' h =
      let (before, p, h1) = bind-ok (require_pending i s) _ h in
      let (_, _, h2) =
        bind-ok (require (review_type_eq before.review_type high_impact_event) Error.conflict) _
          h1 in
      Closes-of i s before s ReviewStatus.approved (acknowledged_by user remark) user now r s' p
        (refl, refl, refl, inl refl) refl h2
  decide-Closes dismiss now i user s r s' h =
      let (before, p, h1) = bind-ok (require_pending i s) _ h in
      Closes-of i s before s ReviewStatus.rejected no_resolution user now r s' p
        (refl, refl, refl, inl refl) refl h1

  require_pending_sound :
      (i : ℕ) (s : CaseStore F) (r : ReviewItem)
      → require_pending i s ≡ ok r
      → (get_review i s ≡ some r)
        × (r.id ≡ i)
        × (review_status_eq r.status ReviewStatus.pending ≡ true)
  unfolding require_pending get_review
  require_pending_sound i s r h = elim (Option-cases (get_review i s)) [
    | inl e ↦ cc (rw (e, require_pending) at h)
    | inr (x, e) ↦
        let (_, t) = first?_sound (λ (y : ReviewItem). y.id == i) s.reviews x e in
        let (_, p, q) =
          bind-ok (require (review_status_eq x.status ReviewStatus.pending) Error.conflict)
            (λ _. ok x) (rw (e, require_pending) at h) in
        subst
          (λ (y : ReviewItem).
            (get_review i s ≡ some y)
            × (y.id ≡ i)
            × (review_status_eq y.status ReviewStatus.pending ≡ true))
          (ok_inj q) (e, ground arith, ground arith)
  ]

  Closes-get_review :
      (i : ℕ) (s : CaseStore F) (r : ReviewItem) (s' : CaseStore F)
      → Closes i s r s'
      → get_review i s' ≡ some r
  unfolding get_review close_review
  Closes-get_review i s r s' c =
      let (g, e, _) = require_pending_sound i s c.before c.was_pending in
      let k =
        first?-update (λ (x : ReviewItem). x.id == i) (closed c.status c.resolution c.user c.now)
          (λ a t. t) s.reviews c.before g in
      rw (c.is_stored, e, c.linked_from.0, c.is_closed, close_review) k

  decide-closed :
      (d : Decision) (now i user : ℕ) (s : CaseStore F) (r : ReviewItem)
      → get_review i s ≡ some r
      → review_status_eq r.status ReviewStatus.pending ≡ false
      → decide d now i user s ≡ err Error.conflict
  unfolding decide resolve_entity_resolution acknowledge_high_impact_event reject require_pending
  decide-closed (Decision.link actor) now i user s r g e = ground arith
  decide-closed (Decision.acknowledge remark) now i user s r g e = ground arith
  decide-closed Decision.dismiss now i user s r g e = ground arith

  -- A decision that succeeds finds its item pending and stores the closed item that it returns, and
  -- whatever is decided about that item afterwards, by anyone, is refused as a conflict.
  pub decide-once :
      (d : Decision) (now i user : ℕ) (s : CaseStore F) (r : ReviewItem) (s' : CaseStore F)
      → decide d now i user s ≡ ok (r, s')
      → (get_review i s' ≡ some r)
        × (review_status_eq r.status ReviewStatus.pending ≡ false)
        × ((d' : Decision) (now' user' : ℕ) → decide d' now' i user' s' ≡ err Error.conflict)
  decide-once d now i user s r s' h =
      let c = decide-Closes d now i user s r s' h in
      let g = Closes-get_review i s r s' c in
      let e : review_status_eq r.status ReviewStatus.pending ≡ false =
        subst (λ (x : ReviewItem). review_status_eq x.status ReviewStatus.pending ≡ false)
          (sym c.is_closed) c.decided in
      (g, e, λ d' now' user'. decide-closed d' now' i user' s' r g e)
