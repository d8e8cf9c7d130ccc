-- ===== src/Casework/Extraction/Linking.antt =====
-- The links of an extracted event, src/mei/application/services/extraction.py: when linking succeeds.
use middle_east_geopolitic.Casework.Models.{CaseStore, EventActor, ReviewItem}
use middle_east_geopolitic.Common.{
  Bool, All, true, sym, subst, All-append, none, inr, inl, Bool-cases, [], some, false, ◌∷◌, refl,
  ◌++◌, ◌≡◌, Option, String, List, ℕ,
}
use middle_east_geopolitic.Common.Float.{Float}
use middle_east_geopolitic.Casework.Extraction.Models.{
  has_link, ExtractedEventActor, SourceText, Reader, Session,
}
use middle_east_geopolitic.Common.Result.{ok, Result}
use middle_east_geopolitic.Casework.Repository.{same_link, insert_event_actor}
use middle_east_geopolitic.Casework.Extraction.Persist.{link_resolved, resolve_mention, link_actors}
use middle_east_geopolitic.Casework.Resolution.{resolve}
use middle_east_geopolitic.Casework.Extraction.Covers.{
  has_link_here, Covers-grow, no_such_link, Covers,
}
use middle_east_geopolitic.Casework.Extraction.Extends.{
  Extends-trans, Extends, is_high_item, Extends-still,
}
use middle_east_geopolitic.Casework.Extraction.Clusters.{event_link}
use middle_east_geopolitic.Common.Rows.{first?, select}
use middle_east_geopolitic.Casework.Resolution.{resolved_or_queued}
use middle_east_geopolitic.Common.Rows.Laws.{select-append_other}
use middle_east_geopolitic.Casework.Extraction.Columns.{is_within, ActorFits, StoreFits}

-- A call that ends well, with the tables that it leaves.
abbrev pub Succeeds :
    {F : Type 0} → (ℕ → String → Bool) → ℕ → ℕ → Session F → Result (Session F) → Type 0
Succeeds {F} fits document k p r =
    (q : Session F) × (r ≡ ok q) × Extends fits document k p.store q.store

module _ {F : Type 0} ⦃fl : Float F⦄ (w : Reader F) (document : SourceText) where
  queued_high :
      (o : Option ℕ) (item : ReviewItem) (queue : List ReviewItem)
      → is_high_item item ≡ false
      → select is_high_item (resolved_or_queued o item queue).1 ≡ select is_high_item queue
  queued_high none item queue h = select-append_other is_high_item queue item h
  queued_high (some i) item queue h = refl

  -- A mention changes the queue alone, and queues nothing of high impact.
  pub resolve_mention-Extends :
      (name role target_type : String) (target : ℕ) (event_role : Option String) (p : Session F)
      → Extends is_within document.id 0 p.store
          (resolve_mention w name role target_type target event_role p).1.store
  unfolding resolve_mention resolve
  resolve_mention-Extends name role target_type target event_role p =
      Extends-still is_within document.id p.store _ refl refl refl
        (queued_high _ _ p.store.reviews refl)
        (λ h. record {
          events_fit = h.events_fit;
          links_fit = h.links_fit;
          claims_fit = h.claims_fit;
        })

  resolve_mention-links :
      (name role target_type : String) (target : ℕ) (event_role : Option String) (p : Session F)
      → (resolve_mention w name role target_type target event_role p).1.store.event_actors
        ≡ p.store.event_actors
  unfolding resolve_mention
  resolve_mention-links name role target_type target event_role p = refl

  abbrev Linked : ℕ → Session F → Result (List (ℕ × String) × Session F) → Type 0
  Linked event p r =
      (q : List (ℕ × String) × Session F) × (r ≡ ok q)
      × Covers event q.0 q.1.store.event_actors
      × Extends is_within document.id 0 p.store q.1.store

  abbrev added_link : ℕ → ℕ → String → Session F → Session F
  added_link event actor role p = record p {
    store = record p.store {
      event_actors = p.store.event_actors ++ (event_link event actor role ∷ []);
    };
  }

  insert_new :
      (l : EventActor F) (s : CaseStore F)
      → first? (same_link l) s.event_actors ≡ none
      → insert_event_actor l s ≡ ok (record s { event_actors = s.event_actors ++ (l ∷ []) })
  unfolding insert_event_actor
  insert_new l s h = rw (h, insert_event_actor) refl

  added_fits :
      (event actor : ℕ) (role : String) (p : Session F)
      → is_within 50 role ≡ true
      → StoreFits is_within p.store
      → StoreFits is_within (added_link event actor role p).store
  added_fits event actor role p l h = record {
    events_fit = h.events_fit;
    links_fit = All-append _ p.store.event_actors _ h.links_fit (l, tt);
    claims_fit = h.claims_fit;
  }

  link_resolved-total :
      (event : ℕ) (role : String) (links : List (ℕ × String)) (o : Option ℕ) (p : Session F)
      → is_within 50 role ≡ true
      → Covers event links p.store.event_actors
      → Linked event p (link_resolved event role links (o, p))
  link_resolved-total event role links none p l h = (
    (links, p),
    refl,
    h,
    Extends-still is_within document.id p.store p.store refl refl refl refl (λ f. f),
  )
  link_resolved-total event role links (some actor) p l h =
      elim (Bool-cases (has_link actor role links)) [
        | inl e ↦ rw e (
          (links, p),
          refl,
          h,
          Extends-still is_within document.id p.store p.store refl refl refl refl (λ f. f),
        )
        | inr e ↦
            rw
              (
                e,
                insert_new (event_link event actor role) p.store
                    (no_such_link event actor role links p.store.event_actors h e),
              )
              (
                ((actor, role) ∷ links, added_link event actor role p),
                refl,
                All-append _ p.store.event_actors (event_link event actor role ∷ [])
                    (Covers-grow event (actor, role) links p.store.event_actors h)
                    ((λ _. has_link_here actor role links), tt),
                Extends-still is_within document.id p.store (added_link event actor role p).store
                    refl refl refl refl (added_fits event actor role p l),
              )
      ]

  pub link_actors-total :
      (event : ℕ) (links : List (ℕ × String)) (actors : List ExtractedEventActor) (p : Session F)
      → All (ActorFits is_within) actors
      → Covers event links p.store.event_actors
      → Succeeds is_within document.id 0 p (link_actors w event links actors p)
  unfolding link_actors
  link_actors-total event links [] p l h =
      (p, refl, Extends-still is_within document.id p.store p.store refl refl refl refl (λ f. f))
  link_actors-total event links (a ∷ rest) p l h =
      let (o, p1) = resolve_mention w a.name "event_actor" "event" event (some a.role) p in
      let first = resolve_mention-Extends a.name "event_actor" "event" event (some a.role) p in
      let same = resolve_mention-links a.name "event_actor" "event" event (some a.role) p in
      let (q, e, c, x) =
        link_resolved-total event a.role links o p1 l.0 (subst (Covers event links) (sym same) h) in
      let (r, f, y) = link_actors-total event q.0 rest q.1 l.1 c in
      (
        r,
        rw e f,
        Extends-trans is_within document.id 0 0 p.store p1.store r.store first
            (Extends-trans is_within document.id 0 0 p1.store q.1.store r.store x y),
      )
