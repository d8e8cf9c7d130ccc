-- ===== src/Pipeline/News.antt =====
-- `_run_daily_news_scraping` and `_run_social_broadcast_scraping` of
-- src/mei/application/services/pipeline_jobs.py. `moments` gives each submission its time and ids, which may
-- depend on the tables, as new ids are none of those that are there.
pub mod Processed
pub mod Claims
mod Tests
use middle_east_geopolitic.Common.{
  ℕ, ◌+◌, ◌==◌, List, [], ◌∷◌, ◌++◌, Option, some, none, String, if◌then◌else◌, take, length, map,
}
use middle_east_geopolitic.Common.Result.{Result, ok, err, ◌>>=◌, value_error}
use middle_east_geopolitic.Common.Rows.{select, order_asc}
use middle_east_geopolitic.Common.Float.{Float}
use middle_east_geopolitic.Collection.Fetcher.{fetch_url, validate_url_security, FetchResult}
use middle_east_geopolitic.Casework.Review.{given}
use middle_east_geopolitic.Casework.Extraction.Models.{
  Reader, Session, SourceText, ExtractionResult, extract,
}
use middle_east_geopolitic.Casework.Extraction.Persist.{persist}
use middle_east_geopolitic.Ingestion.Models.{
  Document, IngestionStore, Source, SourceEndpoint, is_rss,
}
use middle_east_geopolitic.Ingestion.Service.{Collector, Moment, Submission, submit_url}
use middle_east_geopolitic.Ingestion.Collect.{FeedItem, submission_of, seen_before, with_new}
use middle_east_geopolitic.Ingestion.Repository.{
  mark_endpoint_success, mark_endpoint_failure, get_document,
}
use middle_east_geopolitic.Pipeline.Jobs.{Collation}

abbrev pub Moments : Type 0
Moments = ℕ → ℕ → IngestionStore → Moment

-- The new documents so far and the tables, and how the `try` of an endpoint ends.
abbrev pub Polled : Type 0
Polled = List ℕ × IngestionStore × Result (Unit {0})

-- `SourceRepository.list_all`
unfoldable pub list_sources : Collation → ℕ → IngestionStore → List Source
list_sources collate limit s = take limit (order_asc (λ c. collate c.name) s.sources)

abbrev pub endpoints_of : List Source → List SourceEndpoint → List SourceEndpoint
endpoints_of [] es = []
endpoints_of (c ∷ cs) es =
    if c.enabled
    then select (λ e. e.source_id == c.id) es ++ endpoints_of cs es
    else endpoints_of cs es

module _ (w : Collector) (parse_feed : List ℕ → List FeedItem) (moments : Moments) where
  abbrev pub after_added :
      (List ℕ → IngestionStore → Polled) → List ℕ → IngestionStore × Result Document → Polled
  after_added rest ids (s, err e) = (ids, s, err e)
  after_added rest ids (s, ok d) = rest (with_new d ids) s

  abbrev pub after_known :
      (List ℕ → IngestionStore → Polled)
      → Moment
      → Submission
      → List ℕ
      → Result (Option Document)
      → IngestionStore
      → Polled
  after_known rest m q ids (err e) s = (ids, s, err e)
  after_known rest m q ids (ok (some d)) s = rest ids s
  after_known rest m q ids (ok none) s = after_added rest ids (submit_url w m q s)

  -- The loop over the items of the endpoint with number `k`, from item `n` on.
  unfoldable pub news_items : ℕ → ℕ → ℕ → List FeedItem → List ℕ → IngestionStore → Polled
  news_items k n source [] ids s = (ids, s, ok tt)
  news_items k n source (item ∷ items) ids s =
      after_known (news_items k (n + 1) source items) (moments k n s) (submission_of source item)
        ids (seen_before source (given item.external_id) s) s

  abbrev pub after_fetched :
      ℕ → SourceEndpoint → List ℕ → IngestionStore → Result FetchResult → Polled
  after_fetched k endpoint ids s (err e) = (ids, s, err e)
  after_fetched k endpoint ids s (ok r) =
      news_items k 0 endpoint.source_id (take 15 (parse_feed r.body)) ids
        (mark_endpoint_success endpoint.id (moments k 0 s).now s)

  -- The body of the `try`. The test for the other types names `EndpointType.SCRAPER`, which is no member of
  -- the enumeration, so it raises for each of them.
  unfoldable pub news_endpoint : ℕ → SourceEndpoint → List ℕ → IngestionStore → Polled
  news_endpoint k endpoint ids s =
      if is_rss endpoint.endpoint_type
      then after_fetched k endpoint ids s (
          validate_url_security w.hosts w.resolve endpoint.url >>= λ _.
          (fetch_url w.hosts w.resolve w.server endpoint.url).0)
      else (ids, s, err value_error)

  -- `except (FetchError, UnsupportedURLError, Exception)`
  abbrev pub noted : ℕ → SourceEndpoint → Polled → List ℕ × IngestionStore
  noted k endpoint (ids, s, ok _) = (ids, s)
  noted k endpoint (ids, s, err e) = (ids, mark_endpoint_failure endpoint.id (moments k 0 s).now s)

  -- The two loops, over the sources and their endpoints.
  unfoldable pub news_endpoints :
      ℕ → List SourceEndpoint → List ℕ × IngestionStore → List ℕ × IngestionStore
  news_endpoints k [] p = p
  news_endpoints k (e ∷ es) p = news_endpoints (k + 1) es (noted k e (news_endpoint k e p.0 p.1))

  -- The first part of the job: the documents that are new, and the tables.
  unfoldable pub news_documents : Collation → IngestionStore → List ℕ × IngestionStore
  news_documents collate s =
      news_endpoints 0 (endpoints_of (list_sources collate 100 s) s.endpoints) ([], s)

abbrev pub source_text : Document → SourceText
source_text d = record {
  id = d.id;
  extracted_text = d.extracted_text;
  translation_text = d.translation_text;
  published_at = d.published_at;
  retrieved_at = d.retrieved_at;
}

module _ {F : Type 0} ⦃fl : Float F⦄ (reader : Reader F) where
  -- An exception is logged. The model raises before anything is written; a statement that raises breaks the
  -- session, and the next one, at the latest the commit, raises as well and ends the job.
  abbrev pub persist_read :
      SourceText → Session F → Result (ExtractionResult F) → Result (Session F)
  persist_read document p (err e) = ok p
  persist_read document p (ok x) = persist reader document x p

module _ {F : Type 0} ⦃fl : Float F⦄ (reader : Reader F)
    (model : String → Result (ExtractionResult F)) where
  abbrev pub extract_found : Option Document → Session F → Result (Session F)
  extract_found none p = ok p
  extract_found (some d) p = persist_read reader (source_text d) p (extract model (source_text d))

  -- The loop over the new documents. One without a text is passed over: `extract` refuses it.
  unfoldable pub extract_documents : List ℕ → IngestionStore → Session F → Result (Session F)
  extract_documents [] s p = ok p
  extract_documents (i ∷ is) s p =
      extract_found (get_document i s) p >>= λ q. extract_documents is s q

-- The tables of cases, with the documents that are there now.
abbrev pub with_documents : {F : Type 0} → IngestionStore → Session F → Session F
with_documents s p = record p { store = record p.store { documents = map (λ d. d.id) s.documents } }

abbrev pub extract_if :
    {F : Type 0}
    → ⦃fl : Float F⦄ → Reader F
    → Option (String → Result (ExtractionResult F))
    → List ℕ
    → IngestionStore
    → Session F
    → Result (Session F)
extract_if reader none ids s p = ok p
extract_if reader (some model) ids s p = extract_documents reader model ids s p

-- The whole job: its count, and the tables of both parts.
unfoldable pub daily_news_scraping :
    {F : Type 0}
    → ⦃fl : Float F⦄ → Collector
    → (List ℕ → List FeedItem)
    → Moments
    → Collation
    → Reader F
    → Option (String → Result (ExtractionResult F))
    → IngestionStore
    → Session F
    → Result (ℕ × IngestionStore × Session F)
daily_news_scraping w parse_feed moments collate reader model s p =
    let (ids, t) = news_documents w parse_feed moments collate s in
    extract_if reader model ids t (with_documents t p) >>= λ q. ok (length ids, t, q)

abbrev pub tallied : ℕ → IngestionStore × Result Document → ℕ × IngestionStore
tallied count (s, err e) = (count, s)
tallied count (s, ok d) = (count + 1, s)

-- `_run_social_broadcast_scraping`, over the list of its broadcasts: how many calls returned.
unfoldable pub broadcasts_from :
    Collector → Moments → ℕ → List Submission → ℕ × IngestionStore → ℕ × IngestionStore
broadcasts_from w moments n [] p = p
broadcasts_from w moments n (q ∷ qs) (count, s) =
    broadcasts_from w moments (n + 1) qs (tallied count (submit_url w (moments 0 n s) q s))

-- Its two broadcasts.
abbrev pub broadcast : String → String → String → Submission
broadcast title host rest = record {
  link = record {
    url = record { scheme = "https"; hostname = some host; rest = rest };
    fragment = "";
  };
  title = some title;
  source_id = none;
  external_id = none;
  published_at = none;
}

abbrev pub broadcast_sources : List Submission
broadcast_sources =
    broadcast "CENTCOM Operational Summary - Red Sea Interceptions" "www.centcom.mil"
      "/MEDIA/PRESS-RELEASES/Press-Release-View/Article/redsea-intercept-daily/"
    ∷ broadcast "SABA News Statement - Maritime Movement Directives" "www.saba.ye"
        "/en/news/statement-maritime-transit/"
    ∷ []

unfoldable pub social_broadcast_scraping : Collector → Moments → IngestionStore → ℕ × IngestionStore
social_broadcast_scraping w moments s = broadcasts_from w moments 0 broadcast_sources (0, s)
