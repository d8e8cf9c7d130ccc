-- ===== src/Casework/History/Invariants.antt =====
-- What holds after every history of the casework tables.
use middle_east_geopolitic.Casework.History.{Reach, here, next}
use middle_east_geopolitic.Casework.Repository.{get_event}
use middle_east_geopolitic.Casework.Models.{
  extracted, is_terminal, LifecycleStatus, Event, CaseStore,
}
use middle_east_geopolitic.Casework.Events.{in_state, is_high_impact_event}
use middle_east_geopolitic.Common.{
  inr, inl, ◌∙◌, Bool-cases, refl, [], ◌==◌, ◌∷◌, ap, sym, All-append, subst, true, false, All-impl,
  arith, some, ℕ, ◌≡◌, All,
}
use middle_east_geopolitic.Casework.History.Effects.{changed, added, Queued, kept, Effect, Keeps}
use middle_east_geopolitic.Casework.Events.Approval.{Supported}
use middle_east_geopolitic.Common.Rows.Laws.{
  first?_sound, first?-update_other, All-update, first?-append_some,
}
use middle_east_geopolitic.Casework.History.Steps.{Step-Effect}

extracted-approved : LifecycleStatus.extracted ≡ LifecycleStatus.approved → ⊥
extracted-approved p = cc

module _ {F : Type 0} where
  -- An event that is approved has a claim with evidence, and one of high impact is in the queue.
  abbrev pub Vouched : CaseStore F → Event F → Type 0
  Vouched s e =
      (e.lifecycle_status ≡ LifecycleStatus.approved → Supported e.id s)
      × (is_high_impact_event e.event_type e.strategic_significance ≡ true → Queued e.id s)

  Keeps-Vouched : (s t : CaseStore F) → Keeps s t → (e : Event F) → Vouched s e → Vouched t e
  Keeps-Vouched s t k e v = ((λ a. k.0 e.id (v.0 a)), (λ a. k.1 e.id (v.1 a)))

  in_state-Vouched :
      (t : CaseStore F) (i : ℕ) (status : LifecycleStatus)
      → (status ≡ LifecycleStatus.approved → Supported i t)
      → (d : Event F) → (d.id == i) ≡ true
      → Vouched t d
      → Vouched t (in_state status d)
  in_state-Vouched t i status q d a v =
      let e : d.id ≡ i = ground arith in ((λ b. subst (λ j. Supported j t) (sym e) (q b)), v.1)

  new-Vouched :
      (t : CaseStore F) (e : Event F)
      → e.lifecycle_status ≡ extracted
      → (is_high_impact_event e.event_type e.strategic_significance ≡ true → Queued e.id t)
      → Vouched t e
  new-Vouched t e l q = ((λ a. elim (extracted-approved (sym l ∙ a)) [ ]), q)

  Effect-Vouched :
      (s t : CaseStore F)
      → Keeps s t
      → Effect s t
      → All (Vouched s) s.events
      → All (Vouched t) t.events
  Effect-Vouched s t k e h =
      let h' : All (Vouched t) s.events =
        All-impl (Vouched s) (Vouched t) (Keeps-Vouched s t k) s.events h in
      elim e [
        | kept p ↦ subst (All (Vouched t)) (sym p) h'
        | added d p l q ↦
            subst (All (Vouched t)) (sym p)
              (All-append (Vouched t) s.events (d ∷ []) h' (new-Vouched t d l q, tt))
        | changed i status d g o p q ↦ subst (All (Vouched t)) (sym p) (
            All-update (Vouched t) (λ (d : Event F). d.id == i) (in_state status)
              (in_state-Vouched t i status (λ b. k.0 i (q b))) s.events h')
      ]

  -- In every history from tables where it holds so far, each approved event has a claim about it with
  -- evidence, and each event of high impact has an item in the queue of reviews that names it.
  pub Reach-Vouched :
      {s t : CaseStore F} → All (Vouched s) s.events → Reach s t → All (Vouched t) t.events
  Reach-Vouched h here = h
  Reach-Vouched h (next r st) =
      let (k, e) = Step-Effect st in Effect-Vouched _ _ k e (Reach-Vouched h r)

  -- A row that is open is not the settled one.
  open-other :
      (s : CaseStore F) (i j : ℕ) (e d : Event F)
      → get_event i s ≡ some e
      → is_terminal e.lifecycle_status ≡ true
      → get_event j s ≡ some d
      → is_terminal d.lifecycle_status ≡ false
      → (e.id == j) ≡ false
  unfolding get_event
  open-other s i j e d g o a b = elim (Bool-cases (e.id == j)) [
    | inl t ↦
        let u = (first?_sound (λ (x : Event F). x.id == i) s.events e g).1 in
        let k : i ≡ j = ground arith in
        let a' : get_event i s ≡ some d = subst (λ l. get_event l s ≡ some d) (sym k) a in
        let p : e ≡ d = cc (g, a') in cc (o, b, ap (λ x. is_terminal x.lifecycle_status) p)
    | inr f ↦ f
  ]

  Effect-settled :
      (s t : CaseStore F) (i : ℕ) (e : Event F)
      → Effect s t
      → get_event i s ≡ some e
      → is_terminal e.lifecycle_status ≡ true
      → get_event i t ≡ some e
  unfolding get_event
  Effect-settled s t i e (kept p) g o = rw p g
  Effect-settled s t i e (added d p l q) g o =
      rw p (first?-append_some (λ (x : Event F). x.id == i) s.events (d ∷ []) e g)
  Effect-settled s t i e (changed j status d a b p q) g o = rw p (
      first?-update_other (λ (x : Event F). x.id == i) (λ (x : Event F). x.id == j)
        (in_state status) (λ _. refl) s.events e g (open-other s i j e d g o a b))

  -- An approved, rejected or superseded event is the same row in every later state of the tables.
  pub Reach-settled :
      {s t : CaseStore F} (i : ℕ) (e : Event F)
      → get_event i s ≡ some e
      → is_terminal e.lifecycle_status ≡ true
      → Reach s t
      → get_event i t ≡ some e
  Reach-settled i e g o here = g
  Reach-settled i e g o (next r st) =
      Effect-settled _ _ i e (Step-Effect st).1 (Reach-settled i e g o r) o
