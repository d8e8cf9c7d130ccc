-- ===== src/Casework/Events/Approval.antt =====
-- What an approval needs, and what it changes.
use middle_east_geopolitic.Common.Rows.{select, insert_desc, order_desc}
use middle_east_geopolitic.Casework.Repository.{
  set_lifecycle_status, is_evidence_of, is_claim_of, get_event, list_claims, list_evidence,
}
use middle_east_geopolitic.Common.{
  sym, ap, refl, id_eq-eq, zero, inr, false, [], arith, suc, inl, ◌⊎◌, some, true, ◌∷◌, take, ◌≡◌,
  Elem, List, ℕ,
}
use middle_east_geopolitic.Casework.Events.{
  require_not_terminal, in_state, require_event, approve_event, any_evidence,
}
use middle_east_geopolitic.Casework.Models.{
  LifecycleStatus, is_terminal, ClaimEvidence, Event, Claim, CaseStore,
}
use middle_east_geopolitic.Common.Result.{
  ok_inj, or_raise_sound, require_sound, Error, require, ◌>>◌, not_found, or_raise, bind-ok, ok,
}
use middle_east_geopolitic.Common.Rows.Laws.{select_sound}

module _ {F : Type 0} where
  -- A claim about the event, with a passage of evidence for it.
  abbrev pub Supported : ℕ → CaseStore F → Type 0
  Supported i s =
      (c : Claim F) × (v : ClaimEvidence F) × Elem c s.claims
      × Elem v s.evidence
      × (c.event_id ≡ some i)
      × (v.claim_id ≡ c.id)

  insert_desc_sound :
      (key : Claim F → ℕ) (a : Claim F) (xs : List (Claim F)) (x : Claim F)
      → Elem x (insert_desc key a xs)
      → Elem x (a ∷ xs)
  unfolding insert_desc
  insert_desc_sound key a [] x h = h
  insert_desc_sound key a (y ∷ ys) x h = ground (arith, insert_desc_sound key a ys x)

  order_desc_sound :
      (key : Claim F → ℕ) (xs : List (Claim F)) (x : Claim F)
      → Elem x (order_desc key xs)
      → Elem x xs
  unfolding order_desc
  order_desc_sound key [] x h = h
  order_desc_sound key (y ∷ ys) x h = elim (insert_desc_sound key y (order_desc key ys) x h) [
    | inl e ↦ inl e
    | inr m ↦ inr (order_desc_sound key ys x m)
  ]

  take_sound : (n : ℕ) (xs : List (Claim F)) (x : Claim F) → Elem x (take n xs) → Elem x xs
  take_sound zero xs x h = elim h [ ]
  take_sound (suc n) [] x h = h
  take_sound (suc n) (y ∷ ys) x (inl e) = inl e
  take_sound (suc n) (y ∷ ys) x (inr m) = inr (take_sound n ys x m)

  -- A claim that is listed for an event is a claim about the event.
  list_claims_sound :
      (i limit : ℕ) (s : CaseStore F) (c : Claim F)
      → Elem c (list_claims (some i) limit 0 s)
      → Elem c s.claims × (c.event_id ≡ some i)
  unfolding list_claims
  list_claims_sound i limit s c h =
      let (m, t) = select_sound (is_claim_of (some i)) s.claims c (
        order_desc_sound (λ c. c.id) (select (is_claim_of (some i)) s.claims) c
          (take_sound limit _ c h)) in
      (m, id_eq-eq c.event_id (some i) t)

  list_evidence_sound :
      (i : ℕ) (s : CaseStore F)
      → ((v : ClaimEvidence F) × Elem v s.evidence × (v.claim_id ≡ i)) ⊎ (list_evidence i s ≡ [])
  unfolding list_evidence
  list_evidence_sound i s = go (select (is_evidence_of i) s.evidence) refl
    where
      go :
          (vs : List (ClaimEvidence F))
          → select (is_evidence_of i) s.evidence ≡ vs
          → ((v : ClaimEvidence F) × Elem v s.evidence × (v.claim_id ≡ i))
            ⊎ (select (is_evidence_of i) s.evidence ≡ [])
      go [] e = inr e
      go (v ∷ vs) e =
          let (m, t) = select_sound (is_evidence_of i) s.evidence v (rw e (inl refl)) in
          inl (v, m, ground arith)

  any_evidence_sound :
      (cs : List (Claim F)) (s : CaseStore F)
      → any_evidence cs s ≡ true
      → (c : Claim F) × (v : ClaimEvidence F) × Elem c cs × Elem v s.evidence × (v.claim_id ≡ c.id)
  unfolding any_evidence
  any_evidence_sound [] s h = cc
  any_evidence_sound (c ∷ cs) s h = elim (list_evidence_sound c.id s) [
    | inl (v, m, e) ↦ (c, v, inl refl, m, e)
    | inr e ↦
        let (d, v, m, n, k) = any_evidence_sound cs s (rw (e, any_evidence) at h) in
        (d, v, inr m, n, k)
  ]

  -- What an approval that succeeds has found and done: the event was in no terminal state and a claim
  -- about it had evidence; the only change is its state.
  pub record Approves (i : ℕ) (s : CaseStore F) (e : Event F) (s' : CaseStore F) : Type 0 where
    pub before : Event F
    pub was_there : get_event i s ≡ some before
    pub was_open : is_terminal before.lifecycle_status ≡ false
    pub supported : Supported i s
    pub is_approved : e ≡ in_state LifecycleStatus.approved before
    pub is_stored : s' ≡ set_lifecycle_status i LifecycleStatus.approved s

  -- An approval succeeds only for an event in no terminal state with a claim about it that has
  -- evidence, and then its only change is the state of the event.
  pub approve_event-Approves :
      (i : ℕ) (s : CaseStore F) (e : Event F) (s' : CaseStore F)
      → approve_event i s ≡ ok (e, s')
      → Approves i s e s'
  unfolding approve_event require_event
  approve_event-Approves i s e s' h =
      let (before, p, h1) = bind-ok (or_raise (get_event i s) not_found) _ h in
      let (_, q, h3) =
        bind-ok
          (require_not_terminal before
            >> require (any_evidence (list_claims (some i) 1000 0 s) s) Error.conflict)
          _ h1 in
      let (_, q1, q2) = bind-ok (require_not_terminal before) _ q in
      let (c, v, m, n, k) =
        any_evidence_sound (list_claims (some i) 1000 0 s) s (require_sound _ _ q2) in
      let (m', a) = list_claims_sound i 1000 s c m in
      record {
        before = before;
        was_there = or_raise_sound _ _ _ p;
        was_open = ground (arith, require_sound _ _ q1);
        supported = (c, v, m', n, a, k);
        is_approved = ap (λ x. x.0) (sym (ok_inj h3));
        is_stored = ap (λ x. x.1) (sym (ok_inj h3));
      }
