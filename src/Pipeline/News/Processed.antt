-- ===== src/Pipeline/News/Processed.antt =====
-- The documents that the news job goes on to extract from.
use middle_east_geopolitic.Common.{
  ◌≡◌, refl, All, All-impl, All-append, Elem, Bool-cases, true, false, ◌==◌, inl, inr, ℕ, ◌+◌, List,
  [], ◌∷◌, ◌++◌, Option, some, none,
}
use middle_east_geopolitic.Common.Result.{Result, ok, err}
use middle_east_geopolitic.Common.Rows.Laws.{Elem-append}
use middle_east_geopolitic.Collection.Fetcher.{FetchResult}
use middle_east_geopolitic.Casework.Review.{given}
use middle_east_geopolitic.Ingestion.Models.{Document, IngestionStore, SourceEndpoint, is_rss}
use middle_east_geopolitic.Ingestion.Service.{Collector, Submission, submit_url}
use middle_east_geopolitic.Ingestion.Collect.{
  FeedItem, submission_of, seen_before, with_new, is_new,
}
use middle_east_geopolitic.Ingestion.Repository.{mark_endpoint_success, mark_endpoint_failure}
use middle_east_geopolitic.Ingestion.Archive.{IsArchive}
use middle_east_geopolitic.Ingestion.Submit.{submit_url-Kept, submit_url-Listed, Kept}
use middle_east_geopolitic.Ingestion.History.{Kept-IsArchive}
use middle_east_geopolitic.Pipeline.Jobs.{Collation}
use middle_east_geopolitic.Pipeline.News.{
  Moments, Polled, after_added, after_known, news_items, after_fetched, news_endpoint, noted,
  news_endpoints, news_documents,
}

-- A document of the table that is parsed and no duplicate has the id.
abbrev pub IsExtractable : List Document → ℕ → Type 0
IsExtractable docs i = (d : Document) × Elem d docs × (d.id ≡ i) × (is_new d ≡ true)

-- The archive is in order, and has the documents that were collected.
pub record IsCollected (ids : List ℕ) (s : IngestionStore) : Type 0 where
  pub archive : IsArchive s.documents
  pub ids_lem : All (IsExtractable s.documents) ids

-- New ids are none of those that are there.
abbrev pub AreFresh : Moments → Type 0
AreFresh moments =
    (k n : ℕ) (s : IngestionStore)
    → All (λ x. (x.id == (moments k n s).document_id) ≡ false) s.documents

IsExtractable-grow :
    (docs more : List Document) (i : ℕ) → IsExtractable docs i → IsExtractable (docs ++ more) i
IsExtractable-grow docs more i (d, m, e, n) = (d, Elem-append docs more d m, e, n)

module _ (w : Collector) (parse_feed : List ℕ → List FeedItem) (moments : Moments)
    (fresh : AreFresh moments) where
  submitted-IsCollected :
      (k n : ℕ) (q : Submission) (ids : List ℕ) (s : IngestionStore)
      → IsCollected ids s
      → IsCollected ids (submit_url w (moments k n s) q s).0
  submitted-IsCollected k n q ids s h =
      let kept = submit_url-Kept w (moments k n s) q s (fresh k n s) in
      record {
        archive = Kept-IsArchive w (moments k n s) q s _ h.archive kept;
        ids_lem = grown kept;
      }
    where
      grown :
          Kept w (moments k n s) q s (submit_url w (moments k n s) q s).0
          → All (IsExtractable (submit_url w (moments k n s) q s).0.documents) ids
      grown (inl e) = rw e (h.ids_lem)
      grown (inr (d, g)) =
          rw (g.last) (All-impl _ _ (λ i. IsExtractable-grow s.documents (d ∷ []) i) ids h.ids_lem)

  with_new-IsCollected :
      (d : Document) (ids : List ℕ) (s : IngestionStore)
      → Elem d s.documents
      → IsCollected ids s
      → IsCollected (with_new d ids) s
  with_new-IsCollected d ids s m h = elim (Bool-cases (is_new d)) [
    | inl e ↦ rw e (record {
      archive = h.archive;
      ids_lem = All-append _ ids _ h.ids_lem ((d, m, refl, e), tt);
    })
    | inr e ↦ rw e h
  ]

  abbrev PolledWell : Polled → Type 0
  PolledWell (ids, s, r) = IsCollected ids s

  -- What is shown of the rest of a loop.
  abbrev GoesWell : (List ℕ → IngestionStore → Polled) → Type 0
  GoesWell rest = (ids : List ℕ) (s : IngestionStore) → IsCollected ids s → PolledWell (rest ids s)

  after_added-IsCollected :
      (rest : List ℕ → IngestionStore → Polled) (ids : List ℕ)
      (p : IngestionStore × Result Document)
      → GoesWell rest
      → IsCollected ids p.0
      → ((d : Document) → p.1 ≡ ok d → Elem d p.0.documents)
      → PolledWell (after_added w parse_feed moments rest ids p)
  after_added-IsCollected rest ids (t, err e) ih g l = g
  after_added-IsCollected rest ids (t, ok d) ih g l =
      ih (with_new d ids) t (with_new-IsCollected d ids t (l d refl) g)

  after_known-IsCollected :
      (rest : List ℕ → IngestionStore → Polled) (k n : ℕ) (q : Submission) (ids : List ℕ)
      (found : Result (Option Document)) (s : IngestionStore)
      → GoesWell rest
      → IsCollected ids s
      → PolledWell (after_known w parse_feed moments rest (moments k n s) q ids found s)
  after_known-IsCollected rest k n q ids (err e) s ih h = h
  after_known-IsCollected rest k n q ids (ok (some d)) s ih h = ih ids s h
  after_known-IsCollected rest k n q ids (ok none) s ih h =
      after_added-IsCollected rest ids _ ih (submitted-IsCollected k n q ids s h)
        (λ d. submit_url-Listed w (moments k n s) q s d (fresh k n s))

  news_items-IsCollected :
      (k n source : ℕ) (items : List FeedItem)
      → GoesWell (news_items w parse_feed moments k n source items)
  unfolding news_items
  news_items-IsCollected k n source [] ids s h = h
  news_items-IsCollected k n source (item ∷ items) ids s h =
      after_known-IsCollected (news_items w parse_feed moments k (n + 1) source items) k n
        (submission_of source item) ids (seen_before source (given item.external_id) s) s
        (news_items-IsCollected k (n + 1) source items) h

  after_fetched-IsCollected :
      (k : ℕ) (e : SourceEndpoint) (ids : List ℕ) (s : IngestionStore) (r : Result FetchResult)
      → IsCollected ids s
      → PolledWell (after_fetched w parse_feed moments k e ids s r)
  unfolding mark_endpoint_success
  after_fetched-IsCollected k e ids s (err x) h = h
  after_fetched-IsCollected k e ids s (ok r) h =
      news_items-IsCollected k 0 e.source_id _ ids
        (mark_endpoint_success e.id (moments k 0 s).now s)
        (record { archive = h.archive; ids_lem = h.ids_lem })

  news_endpoint-IsCollected :
      (k : ℕ) (e : SourceEndpoint) (ids : List ℕ) (s : IngestionStore)
      → IsCollected ids s
      → PolledWell (news_endpoint w parse_feed moments k e ids s)
  unfolding news_endpoint
  news_endpoint-IsCollected k e ids s h = elim (Bool-cases (is_rss e.endpoint_type)) [
    | inl x ↦ rw (x, PolledWell) (after_fetched-IsCollected k e ids s _ h)
    | inr x ↦ rw (x, PolledWell) h
  ]

  noted-IsCollected :
      (k : ℕ) (e : SourceEndpoint) (p : Polled)
      → PolledWell p
      → IsCollected (noted w parse_feed moments k e p).0 (noted w parse_feed moments k e p).1
  unfolding mark_endpoint_failure
  noted-IsCollected k e (ids, s, ok u) h = h
  noted-IsCollected k e (ids, s, err x) h = record { archive = h.archive; ids_lem = h.ids_lem }

  news_endpoints-IsCollected :
      (k : ℕ) (es : List SourceEndpoint) (p : List ℕ × IngestionStore)
      → IsCollected p.0 p.1
      → let q = news_endpoints w parse_feed moments k es p in IsCollected q.0 q.1
  unfolding news_endpoints
  news_endpoints-IsCollected k [] p h = h
  news_endpoints-IsCollected k (e ∷ es) p h =
      news_endpoints-IsCollected (k + 1) es _
        (noted-IsCollected k e _ (news_endpoint-IsCollected k e p.0 p.1 h))

  -- However the feeds, the servers and the names answer, the job leaves an archive, and the documents that it
  -- goes on to extract from are rows of the archive that are parsed and no duplicates.
  pub news_documents-IsCollected :
      (collate : Collation) (s : IngestionStore)
      → IsArchive s.documents
      → let p = news_documents w parse_feed moments collate s in IsCollected p.0 p.1
  unfolding news_documents
  news_documents-IsCollected collate s h =
      news_endpoints-IsCollected 0 _ ([], s) (record { archive = h; ids_lem = tt })
