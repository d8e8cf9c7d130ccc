-- ===== src/Casework/Extraction/Tests.antt =====
-- The persisting of a small extraction, and the theorem at that input.
use middle_east_geopolitic.Common.Fixed.{thousandths}
use middle_east_geopolitic.Casework.Extraction.Persist.{
  persist_claim, persist_claims, resolve_mention, link_actors, confident_ids, clustered,
  persist_event, persist_events, persist,
}
use middle_east_geopolitic.Casework.Models.{CaseStore}
use middle_east_geopolitic.Casework.Extraction.Models.{
  resolve_temporal, Session, ExtractionResult, SourceText, Reader,
}
use middle_east_geopolitic.Common.Result.{ok, err, Result}
use middle_east_geopolitic.Common.{
  refl, ◌≡◌, map, ◌+◌, String, Option, ℕ, [], str_eq, if◌then◌else◌, none, List, ◌∷◌, some,
}
use middle_east_geopolitic.Common.Int.{pos, ℤ}
use middle_east_geopolitic.Casework.Resolution.{
  sort_scored, auto_resolved, surfaced_of, rank_candidates, resolve_confident,
}
use middle_east_geopolitic.Casework.Extraction.Clusters.{find_candidates}
use middle_east_geopolitic.Common.Rows.{update, first?, select}
use middle_east_geopolitic.Casework.Repository.{
  insert_evidence, set_actor, insert_claim, insert_event_actor, insert_event,
}
use middle_east_geopolitic.Casework.Resolution.{resolve}
use middle_east_geopolitic.Casework.Extraction.Columns.{is_within, StoreFits, ReplyFits, rows_fit}

-- One actor is known, by its exact name.
abbrev pub reader : Reader ℤ
reader = record {
  ratio = λ a b. if str_eq a b then pos 100 else pos 0;
  thresholds = record { auto_threshold = pos 90; review_threshold = pos 50 };
  exact = λ name. if str_eq name "Iran" then some 7 else none;
  pool = [];
  parse_date = λ t base. none;
  window = 172800;
  author = 1;
  now = 1000000;
  ids = λ n. 100 + n;
}

abbrev document : SourceText
document = record {
  id = 3;
  extracted_text = some "A text.";
  translation_text = none;
  published_at = some 900000;
  retrieved_at = none;
}

-- The actor is named twice in one role, and an unknown one once.
abbrev pub reading : ExtractionResult ℤ
reading = record {
  claims =
      record {
        text = "Iran closed the strait.";
        claimant_name = none;
        subject_name = some "Iran";
        claim_type = "statement";
        event_reference = some "Closure";
        source_excerpt = "closed";
        extraction_confidence = pos 1;
      }
      ∷ [];
  events =
      record {
        event_type = "chokepoint_closure";
        title = "Closure";
        summary = none;
        temporal_reference = none;
        actors =
            record { name = "Iran"; role = "initiator" }
            ∷ record { name = "Iran"; role = "initiator" }
            ∷ record { name = "Nobody"; role = "target" }
            ∷ [];
      }
      ∷ [];
}

abbrev pub nothing : CaseStore ℤ
nothing = record {
  actors = 7 ∷ [];
  documents = 3 ∷ [];
  events = [];
  event_actors = [];
  locations = [];
  impacts = [];
  claims = [];
  evidence = [];
  reviews = [];
}

abbrev pub start : Session ℤ
start = record { used = 0; store = nothing }

abbrev links_in : Result (Session ℤ) → List (ℕ × ℕ × String)
links_in (err e) = []
links_in (ok p) = map (λ l. (l.event_id, l.actor_id, l.role)) p.store.event_actors

abbrev subjects_in : Result (Session ℤ) → List (Option ℕ × Option ℕ)
subjects_in (err e) = []
subjects_in (ok p) = map (λ c. (c.event_id, c.subject_actor_id)) p.store.claims

linked_once : links_in (persist reader document reading start) ≡ (100, 7, "initiator") ∷ []
unfolding persist rows_fit is_within persist_events persist_event clustered resolve_temporal
    confident_ids resolve_confident find_candidates select insert_event link_actors resolve_mention
    resolve insert_event_actor first? rank_candidates surfaced_of auto_resolved persist_claims
    persist_claim insert_claim set_actor insert_evidence sort_scored update
linked_once = refl

subject_known : subjects_in (persist reader document reading start) ≡ (some 100, some 7) ∷ []
unfolding persist rows_fit is_within persist_events persist_event clustered resolve_temporal
    confident_ids resolve_confident find_candidates select insert_event link_actors resolve_mention
    resolve insert_event_actor first? rank_candidates surfaced_of auto_resolved persist_claims
    persist_claim insert_claim set_actor insert_evidence sort_scored update
subject_known = refl

pub reading-ReplyFits : ReplyFits is_within reading
unfolding is_within
reading-ReplyFits = (((refl, (refl, (refl, (refl, tt)))), tt), (refl, tt))

pub nothing-StoreFits : StoreFits is_within nothing
nothing-StoreFits = record { events_fit = tt; links_fit = tt; claims_fit = tt }
