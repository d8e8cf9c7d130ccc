-- ===== src/Ingestion/Collect.antt =====
-- apps/worker/tasks/collect.py: the tasks that poll feeds. A task commits its session at its end, so a task
-- that raises leaves no trace.
use middle_east_geopolitic.Ingestion.Service.{submit_url, Submission, Moment, Collector}
use middle_east_geopolitic.Common.{
  [], ◌+◌, ◌∷◌, false, leb, none, ◌++◌, some, ◌-◌, true, String, if◌then◌else◌, Option, Bool, List,
  ℕ,
}
use middle_east_geopolitic.Ingestion.Models.{
  is_parsed, is_rss, SourceEndpoint, Link, Document, IngestionStore,
}
use middle_east_geopolitic.Common.Result.{unsupported_url, ◌>>=◌, fetch, err, ok, Result, Error}
use middle_east_geopolitic.Ingestion.Repository.{
  mark_endpoint_success, find_by_external_id, list_endpoints_due, mark_endpoint_failure,
  list_failing_endpoints, count_retrieved_before,
}
use middle_east_geopolitic.Collection.Fetcher.{fetch_url, validate_url_security, FetchResult}
use middle_east_geopolitic.Common.Rows.{select}

pub record FeedItem : Type 0 where
  pub link : Link
  pub title : Option String
  pub external_id : Option String
  pub published_at : Option ℕ

abbrev pub circuit_breaker_failure_count : ℕ
circuit_breaker_failure_count = 10

abbrev pub audit_failure_threshold : ℕ
audit_failure_threshold = 5

-- `except (FetchError, UnsupportedURLError)`
abbrev pub is_caught : Error → Bool
is_caught fetch = true
is_caught unsupported_url = true
is_caught _ = false

abbrev pub submission_of : ℕ → FeedItem → Submission
submission_of source item = record {
  link = item.link;
  title = item.title;
  source_id = some source;
  external_id = item.external_id;
  published_at = item.published_at;
}

-- `find_by_external_id`, where the item has such an id.
abbrev pub seen_before : ℕ → Option String → IngestionStore → Result (Option Document)
seen_before source none s = ok none
seen_before source (some external) s = find_by_external_id source external s

-- `if document.status == PARSED and document.duplicate_of_document_id is None`
abbrev pub is_new : Document → Bool
is_new d = elim d.duplicate_of_document_id [ none ↦ is_parsed d.status | some _ ↦ false ]

abbrev pub with_new : Document → List ℕ → List ℕ
with_new d ids = if is_new d then ids ++ (d.id ∷ []) else ids

-- The parser of feeds is a parameter; `moments` gives each item its time and ids.
module _ (w : Collector) (parse_feed : List ℕ → List FeedItem) where
  -- One pass of the loop over the items, then the rest from the tables and the ids that it leaves.
  abbrev pub after_submit :
      (List ℕ → IngestionStore → IngestionStore × Result (List ℕ))
      → List ℕ
      → IngestionStore × Result Document
      → IngestionStore × Result (List ℕ)
  after_submit rest ids (s, err e) = (s, err e)
  after_submit rest ids (s, ok d) = rest (with_new d ids) s

  abbrev pub after_seen :
      (List ℕ → IngestionStore → IngestionStore × Result (List ℕ))
      → Moment
      → ℕ
      → FeedItem
      → List ℕ
      → Result (Option Document)
      → IngestionStore
      → IngestionStore × Result (List ℕ)
  after_seen rest m source item ids (err e) s = (s, err e)
  after_seen rest m source item ids (ok (some d)) s = rest ids s
  after_seen rest m source item ids (ok none) s =
      after_submit rest ids (submit_url w m (submission_of source item) s)

  unfoldable pub collect_items :
      (ℕ → Moment)
      → ℕ
      → ℕ
      → List FeedItem
      → List ℕ
      → IngestionStore
      → IngestionStore × Result (List ℕ)
  collect_items moments n source [] ids s = (s, ok ids)
  collect_items moments n source (item ∷ items) ids s =
      after_seen (collect_items moments (n + 1) source items) (moments n) source item ids
        (seen_before source item.external_id s) s

  abbrev pub after_feed :
      (ℕ → Moment)
      → SourceEndpoint
      → Result FetchResult
      → IngestionStore
      → IngestionStore × Result (List ℕ)
  after_feed moments endpoint (err e) s =
      if is_caught e
      then (mark_endpoint_failure endpoint.id (moments 0).now s, ok [])
      else (s, err e)
  after_feed moments endpoint (ok r) s =
      collect_items moments 0 endpoint.source_id (parse_feed r.body) []
        (mark_endpoint_success endpoint.id (moments 0).now s)

  -- `_collect_endpoint`
  unfoldable pub collect_endpoint :
      (ℕ → Moment) → SourceEndpoint → IngestionStore → IngestionStore × Result (List ℕ)
  collect_endpoint moments endpoint s =
      if is_rss endpoint.endpoint_type
      then after_feed moments endpoint
          (validate_url_security w.hosts w.resolve endpoint.url >>= λ _.
            (fetch_url w.hosts w.resolve w.server endpoint.url).0)
          s
      else (s, ok [])

  abbrev pub after_endpoint :
      (List ℕ → IngestionStore → IngestionStore × Result (List ℕ))
      → List ℕ
      → IngestionStore × Result (List ℕ)
      → IngestionStore × Result (List ℕ)
  after_endpoint rest ids (s, err e) = (s, err e)
  after_endpoint rest ids (s, ok more) = rest (ids ++ more) s

  -- The loop over the endpoints, with the moments of each.
  unfoldable pub collect_endpoints :
      (ℕ → ℕ → Moment)
      → ℕ
      → List SourceEndpoint
      → List ℕ
      → IngestionStore
      → IngestionStore × Result (List ℕ)
  collect_endpoints moments k [] ids s = (s, ok ids)
  collect_endpoints moments k (e ∷ es) ids s =
      after_endpoint (collect_endpoints moments (k + 1) es) ids (collect_endpoint (moments k) e s)

  -- `await session.commit()` is reached only without an exception.
  abbrev pub commit :
      IngestionStore → IngestionStore × Result (List ℕ) → IngestionStore × Result (List ℕ)
  commit before (s, err e) = (before, err e)
  commit before (s, ok ids) = (s, ok ids)

  -- `_collect_feeds_async`: the ids are those of the documents to translate.
  unfoldable pub collect_feeds :
      (ℕ → ℕ → Moment) → String → IngestionStore → IngestionStore × Result (List ℕ)
  collect_feeds moments schedule s =
      commit s (collect_endpoints moments 0 (list_endpoints_due schedule s) [] s)

  -- `_retry_failed_endpoints_async`
  unfoldable pub retry_failed_endpoints :
      (ℕ → ℕ → Moment) → IngestionStore → IngestionStore × Result (List ℕ)
  retry_failed_endpoints moments s = commit s (
      collect_endpoints moments 0
        (select (λ e. leb e.failure_count circuit_breaker_failure_count)
          (list_failing_endpoints 1 s))
        [] s)

-- The endpoints that `_audit_source_failures_async` logs.
unfoldable pub audit_source_failures : IngestionStore → List SourceEndpoint
audit_source_failures s = list_failing_endpoints audit_failure_threshold s

-- `_archive_old_raw_data_async`: how many documents were retrieved before the cutoff.
unfoldable pub archive_old_raw_data : ℕ → ℕ → IngestionStore → ℕ
archive_old_raw_data now retention s = count_retrieved_before (now - retention) s
