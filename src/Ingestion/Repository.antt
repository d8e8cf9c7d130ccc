-- ===== src/Ingestion/Repository.antt =====
-- src/mei/infrastructure/repositories/sources.py and documents.py: queries and writes on the tables of an
-- `IngestionStore`. A digest is a number, since only its equality is used.
use middle_east_geopolitic.Ingestion.Models.{
  url_eq, is_rss, str?_eq, DocumentStatus, SourceEndpoint, DocumentChunk, Source, IngestionStore,
  Document,
}
use middle_east_geopolitic.Common.{
  [], ltb, ◌+◌, not, true, ◌∷◌, str_eq, ◌&&◌, none, leb, drop, false, ◌==◌, length, head?, some,
  take, ◌++◌, Bool, String, List, ℕ, Option,
}
use middle_east_geopolitic.Common.Rows.{order_desc, order_asc, select, first?, update}
use middle_east_geopolitic.Collection.Fetcher.{Url}
use middle_east_geopolitic.Common.Result.{multiple_results, err, ok, Result}

-- `scalar_one_or_none`: more than one row is an error.
abbrev pub one_or_none {ℓ} : {A : Type ℓ} → List A → Result (Option A)
one_or_none [] = ok none
one_or_none (x ∷ []) = ok (some x)
one_or_none (x ∷ y ∷ rest) = err multiple_results

-- `if document_id is not None: … != document_id`
abbrev pub is_other : Option ℕ → ℕ → Bool
is_other none i = true
is_other (some j) i = not (i == j)

abbrev pub digest_eq : Option ℕ → ℕ → Bool
digest_eq none d = false
digest_eq (some c) d = c == d

abbrev pub is_at : ℕ → Url → Document → Bool
is_at source url d = d.source_id == source && url_eq d.canonical_url url

abbrev pub has_external_id : ℕ → String → Document → Bool
has_external_id source external d = d.source_id == source && str?_eq d.external_id (some external)

abbrev pub hash_matches : ℕ → Option ℕ → Document → Bool
hash_matches digest excluded d = digest_eq d.content_hash digest && is_other excluded d.id

abbrev pub fingerprint_matches : ℕ → Option ℕ → Document → Bool
fingerprint_matches print excluded d =
    digest_eq d.content_fingerprint print && is_other excluded d.id

abbrev of_source : Option ℕ → Document → Bool
of_source none d = true
of_source (some i) d = d.source_id == i

unfoldable pub get_source : ℕ → IngestionStore → Option Source
get_source i s = first? (λ x. x.id == i) s.sources

unfoldable pub get_by_name : String → IngestionStore → Option Source
get_by_name name s = first? (λ x. str_eq x.name name) s.sources

unfoldable pub get_by_base_url : String → IngestionStore → Option Source
get_by_base_url url s = first? (λ x. str?_eq x.base_url (some url)) s.sources

unfoldable pub get_endpoint : ℕ → IngestionStore → Option SourceEndpoint
get_endpoint i s = first? (λ e. e.id == i) s.endpoints

abbrev pub is_enabled : Option Source → Bool
is_enabled none = false
is_enabled (some x) = x.enabled

-- The join with the source: an endpoint without one is not listed.
unfoldable pub list_endpoints_due : String → IngestionStore → List SourceEndpoint
unfolding get_source
list_endpoints_due schedule s =
    select
      (λ e.
        is_rss e.endpoint_type
        && str?_eq e.schedule (some schedule)
        && is_enabled (get_source e.source_id s))
      s.endpoints

unfoldable pub list_failing_endpoints : ℕ → IngestionStore → List SourceEndpoint
list_failing_endpoints least s = select (λ e. leb least e.failure_count) s.endpoints

unfoldable pub insert_source : Source → IngestionStore → IngestionStore
insert_source x s = record s { sources = s.sources ++ (x ∷ []) }

unfoldable pub insert_endpoint : SourceEndpoint → IngestionStore → IngestionStore
insert_endpoint e s = record s { endpoints = s.endpoints ++ (e ∷ []) }

-- `mark_endpoint_success` and `mark_endpoint_failure`
unfoldable pub mark_endpoint_success : ℕ → ℕ → IngestionStore → IngestionStore
mark_endpoint_success i at_time s = record s {
  endpoints =
      update (λ e. e.id == i) (λ e. record e { last_success_at = some at_time; failure_count = 0 })
        s.endpoints;
}

unfoldable pub mark_endpoint_failure : ℕ → ℕ → IngestionStore → IngestionStore
mark_endpoint_failure i at_time s = record s {
  endpoints =
      update (λ e. e.id == i)
        (λ e. record e { last_failure_at = some at_time; failure_count = e.failure_count + 1 })
        s.endpoints;
}

unfoldable pub get_document : ℕ → IngestionStore → Option Document
get_document i s = first? (λ d. d.id == i) s.documents

unfoldable pub list_documents : Option ℕ → ℕ → ℕ → IngestionStore → List Document
list_documents source limit offset s =
    take limit (drop offset (order_desc (λ d. d.id) (select (of_source source) s.documents)))

unfoldable pub find_by_canonical_url : ℕ → Url → IngestionStore → Result (Option Document)
find_by_canonical_url source url s = one_or_none (select (is_at source url) s.documents)

unfoldable pub find_by_external_id : ℕ → String → IngestionStore → Result (Option Document)
find_by_external_id source external s =
    one_or_none (select (has_external_id source external) s.documents)

-- `.order_by(Document.id).limit(1)`
unfoldable pub find_by_content_hash : ℕ → Option ℕ → IngestionStore → Option Document
find_by_content_hash digest excluded s =
    head? (order_asc (λ d. d.id) (select (hash_matches digest excluded) s.documents))

unfoldable pub find_by_fingerprint : ℕ → Option ℕ → IngestionStore → Option Document
find_by_fingerprint print excluded s =
    head? (order_asc (λ d. d.id) (select (fingerprint_matches print excluded) s.documents))

-- `DocumentRepository.create`
unfoldable pub insert_document : Document → IngestionStore → IngestionStore
insert_document d s = record s { documents = s.documents ++ (d ∷ []) }

-- The flush of a document whose columns were assigned.
unfoldable pub save_document : Document → IngestionStore → IngestionStore
save_document d s = record s { documents = update (λ x. x.id == d.id) (λ _. d) s.documents }

abbrev pub new_document : ℕ → ℕ → Url → Option String → Option String → Option ℕ → Document
new_document fresh source url title external published = record {
  id = fresh;
  source_id = source;
  canonical_url = url;
  external_id = external;
  title = title;
  published_at = published;
  retrieved_at = none;
  content_hash = none;
  raw_object_key = none;
  extracted_text = none;
  translation_text = none;
  parser_version = none;
  status = DocumentStatus.pending;
  content_fingerprint = none;
  duplicate_of_document_id = none;
}

abbrev pub mark_fetched : String → ℕ → ℕ → Document → Document
mark_fetched key digest at_time d = record d {
  raw_object_key = some key;
  content_hash = some digest;
  retrieved_at = some at_time;
  status = DocumentStatus.fetched;
}

abbrev pub mark_parsed : String → String → ℕ → Document → Document
mark_parsed text version print d = record d {
  extracted_text = some text;
  parser_version = some version;
  status = DocumentStatus.parsed;
  content_fingerprint = some print;
}

abbrev pub mark_duplicate : ℕ → Document → Document
mark_duplicate i d = record d { duplicate_of_document_id = some i }

abbrev pub mark_failed : Document → Document
mark_failed d = record d { status = DocumentStatus.failed }

unfoldable pub add_chunk : DocumentChunk → IngestionStore → IngestionStore
add_chunk c s = record s { chunks = s.chunks ++ (c ∷ []) }

unfoldable pub clear_chunks : ℕ → IngestionStore → IngestionStore
clear_chunks i s = record s { chunks = select (λ c. not (c.document_id == i)) s.chunks }

abbrev was_retrieved_before : ℕ → Option ℕ → Bool
was_retrieved_before cutoff none = false
was_retrieved_before cutoff (some t) = ltb t cutoff

unfoldable pub count_retrieved_before : ℕ → IngestionStore → ℕ
count_retrieved_before cutoff s =
    length (select (λ d. was_retrieved_before cutoff d.retrieved_at) s.documents)
