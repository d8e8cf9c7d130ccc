-- ===== src/Casework/Extraction/Persist.antt =====
-- src/mei/application/services/extraction.py: the links of the extracted events, and the extracted
-- claims with their evidence.
use middle_east_geopolitic.Casework.Resolution.{resolve_confident, resolve}
use middle_east_geopolitic.Common.Float.{Float}
use middle_east_geopolitic.Casework.Extraction.Models.{
  has_link, referenced, resolve_temporal, ExtractionResult, ExtractedEvent, ExtractedEventActor,
  Session, SourceText, ExtractedClaim, Reader,
}
use middle_east_geopolitic.Common.{
  ◌-◌, if◌then◌else◌, some, [], none, ◌+◌, ◌∷◌, Option, String, List, ℕ,
}
use middle_east_geopolitic.Casework.Models.{extracted, unreviewed, supports, Claim, ClaimEvidence}
use middle_east_geopolitic.Common.Result.{◌>>◌, Error, require, ◌>>=◌, ok, Result}
use middle_east_geopolitic.Casework.Extraction.Clusters.{
  event_link, find_candidates, links_of, cluster,
}
use middle_east_geopolitic.Casework.Repository.{
  insert_event_actor, set_actor, insert_claim, insert_evidence,
}
use middle_east_geopolitic.Casework.Review.{given}
use middle_east_geopolitic.Casework.Extraction.Columns.{is_within, rows_fit}

module _ {F : Type 0} ⦃fl : Float F⦄ where
  -- The loop of `_persist_event` over the actors that are resolved with confidence.
  unfoldable pub confident_ids : Reader F → List ExtractedEventActor → List ℕ
  confident_ids w [] = []
  confident_ids w (a ∷ rest) =
      elim (resolve_confident w.ratio w.thresholds a.name (w.exact a.name) w.pool) [
        | none ↦ confident_ids w rest
        | some i ↦ i ∷ confident_ids w rest
      ]

  -- A mention is resolved, or an item is queued.
  unfoldable pub resolve_mention :
      Reader F → String → String → String → ℕ → Option String → Session F → Option ℕ × Session F
  resolve_mention w name role target_type target event_role p =
      let (outcome, queue) =
        resolve w.ratio w.thresholds w.now (w.ids p.used) name role target_type target event_role
          (w.exact name) w.pool p.store.reviews in
      (outcome.actor_id, record { used = p.used + 1; store = record p.store { reviews = queue } })

  -- The link that the outcome calls for, with the links that are there now.
  abbrev pub link_resolved :
      ℕ → String → List (ℕ × String) → Option ℕ × Session F → Result (List (ℕ × String) × Session F)
  link_resolved event role links (none, p) = ok (links, p)
  link_resolved event role links (some actor, p) =
      if has_link actor role links
      then ok (links, p)
      else insert_event_actor (event_link event actor role) p.store >>= λ s.
          ok ((actor, role) ∷ links, record p { store = s })

  -- The last loop of `_persist_event`.
  unfoldable pub link_actors :
      Reader F → ℕ → List (ℕ × String) → List ExtractedEventActor → Session F → Result (Session F)
  link_actors w event links [] p = ok p
  link_actors w event links (a ∷ rest) p =
      link_resolved event a.role links
        (resolve_mention w a.name "event_actor" "event" event (some a.role) p)
      >>= λ q. link_actors w event q.0 rest q.1

  unfoldable pub clustered : Reader F → SourceText → ExtractedEvent → Session F → ℕ × Session F
  clustered w document x p =
      let at_time = resolve_temporal w.parse_date w.now x.temporal_reference document in
      cluster w x at_time
        (find_candidates x.event_type (at_time.0 - w.window) (at_time.0 + w.window)
          (confident_ids w x.actors) p.store)
        p

  -- `_persist_event`: the id of the event, and the tables.
  unfoldable pub persist_event :
      Reader F → SourceText → ExtractedEvent → Session F → Result (ℕ × Session F)
  persist_event w document x p =
      let (event, q) = clustered w document x p in
      link_actors w event (links_of event q.store.event_actors) x.actors q >>= λ r. ok (event, r)

  abbrev pub extracted_claim : Reader F → ExtractedClaim F → ℕ → Option ℕ → Claim F
  extracted_claim w x fresh event = record {
    id = fresh;
    claim_text = x.text;
    claim_type = x.claim_type;
    claimant_actor_id = none;
    subject_actor_id = none;
    event_id = event;
    verification_status = unreviewed;
    confidence = none;
    lifecycle_status = extracted;
    created_by_type = "llm";
    created_by_id = some w.author;
  }

  abbrev pub assign_resolved : ℕ → String → Option ℕ × Session F → Result (Session F)
  assign_resolved claim role (none, p) = ok p
  assign_resolved claim role (some actor, p) =
      set_actor claim role actor p.store >>= λ s. ok (record p { store = s })

  -- One pass of the loop over the two roles, with the name where one is given.
  abbrev pub assign_named : Reader F → ℕ → String → Option String → Session F → Result (Session F)
  assign_named w claim role none p = ok p
  assign_named w claim role (some n) p =
      assign_resolved claim role (resolve_mention w n role "claim" claim none p)

  abbrev pub supporting : Reader F → SourceText → ExtractedClaim F → ℕ → ℕ → ClaimEvidence F
  supporting w document x fresh claim = record {
    id = fresh;
    claim_id = claim;
    document_id = document.id;
    chunk_id = none;
    stance = supports;
    excerpt = x.source_excerpt;
    source_location = none;
    confidence = some x.extraction_confidence;
    analyst_note = none;
    created_at = w.now;
  }

  abbrev pub add_supporting : Reader F → SourceText → ExtractedClaim F → ℕ → Session F → Session F
  add_supporting w document x claim p = record {
    used = p.used + 1;
    store = insert_evidence (supporting w document x (w.ids p.used) claim) p.store;
  }

  -- `_persist_claim`
  unfoldable pub persist_claim :
      Reader F → SourceText → List (String × ℕ) → ExtractedClaim F → Session F → Result (Session F)
  persist_claim w document titles x p =
      let claim = w.ids p.used in
      let row = extracted_claim w x claim (referenced x.event_reference titles) in
      assign_named w claim "claimant" (given x.claimant_name)
        (record { used = p.used + 1; store = insert_claim row p.store })
      >>= λ q. assign_named w claim "subject" (given x.subject_name) q >>= λ r.
          ok (add_supporting w document x claim r)

  unfoldable pub persist_events :
      Reader F
      → SourceText
      → List (String × ℕ)
      → List ExtractedEvent
      → Session F
      → Result (List (String × ℕ) × Session F)
  persist_events w document titles [] p = ok (titles, p)
  persist_events w document titles (x ∷ rest) p = persist_event w document x p >>= λ q.
      persist_events w document ((x.title, q.0) ∷ titles) rest q.1

  unfoldable pub persist_claims :
      Reader F
      → SourceText
      → List (String × ℕ)
      → List (ExtractedClaim F)
      → Session F
      → Result (Session F)
  persist_claims w document titles [] p = ok p
  persist_claims w document titles (x ∷ rest) p =
      persist_claim w document titles x p >>= λ q. persist_claims w document titles rest q

  -- Each write is flushed. A flush that raises ends the call, of which its caller has nothing then, so the
  -- columns may be checked at the end.
  unfoldable pub persist :
      Reader F → SourceText → ExtractionResult F → Session F → Result (Session F)
  persist w document x p = persist_events w document [] x.events p >>= λ q.
      persist_claims w document q.0 x.claims q.1 >>= λ r.
      require (rows_fit is_within r.store) Error.integrity >> ok r
