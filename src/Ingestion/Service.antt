-- ===== src/Ingestion/Service.antt =====
-- src/mei/application/services/source_ingestion.py: a URL is submitted, fetched, archived and parsed. What
-- a call does is kept beside its outcome: the collectors commit after an exception that they catch, the
-- API rolls back. The object storage of the source (object_storage_mock.py) stores nothing.
use middle_east_geopolitic.Ingestion.Repository.{
  insert_source, insert_endpoint, find_by_fingerprint, add_chunk, get_source, mark_duplicate,
  find_by_canonical_url, find_by_content_hash, insert_document, mark_parsed, mark_failed,
  new_document, save_document, mark_fetched,
}
use middle_east_geopolitic.Collection.Fetcher.{
  Reply, Resolver, fetch_url, validate_url_security, FetchResult, Url,
}
use Prim.Native.String.{◌++◌ as str_append}
use middle_east_geopolitic.Common.{
  [], str_eq, true, ◌+◌, none, if◌then◌else◌, some, ◌∷◌, List, String, Option, ℕ,
}
use middle_east_geopolitic.Ingestion.Models.{
  other, EndpointType, SourceEndpoint, Source, Document, IngestionStore, Link,
}
use middle_east_geopolitic.Common.Result.{not_found, or_raise, err, ok, ◌>>=◌, Result}
use middle_east_geopolitic.Ingestion.Dedup.{Text, compute_fingerprint}
use middle_east_geopolitic.Collection.Chunks.{default_chunk_chars, chunk_text}

-- What the service uses and this repository does not implement, or only wraps: the resolver of names, the
-- server that answers, the extractor of articles (which may raise), and functions of the language and its
-- standard library on bytes and texts. `hosts` is the setting of the private hosts that are allowed.
pub record Collector : Type 0 where
  pub hosts : List String
  pub resolve : Resolver
  pub server : ℕ → Url → Reply
  pub sha256 : List ℕ → ℕ
  pub extract : List ℕ → Url → Result (Option String)  -- `trafilatura.extract`
  pub strip : String → String
  pub code_points : String → Text
  pub lower : Text → Text
  pub hash_shingle : Text → ℕ  -- `int.from_bytes(sha256(shingle).digest()[:8])`
  pub size : String → ℕ  -- `len`
  pub paragraphs : String → List String
  pub word_count : String → ℕ  -- `len(text.split())`

-- The clock, the ids that new rows get, and the key in the object storage, which has a random part.
pub record Moment : Type 0 where
  pub now : ℕ
  pub source_id : ℕ
  pub endpoint_id : ℕ
  pub document_id : ℕ
  pub object_key : String

pub record Submission : Type 0 where
  pub link : Link
  pub title : Option String
  pub source_id : Option ℕ
  pub external_id : Option String
  pub published_at : Option ℕ

abbrev pub parser_version : String
parser_version = "trafilatura-generic-v1"

-- `parsed._replace(fragment="").geturl()`
abbrev pub normalize_url : Link → Url
normalize_url l = l.url

-- `extracted.strip() if extracted else None`
abbrev pub stripped : (String → String) → Option String → Option String
stripped strip none = none
stripped strip (some t) = if str_eq t "" then none else some (strip t)

-- `if not extracted: return`
abbrev pub text_of : Option String → Option String
text_of none = none
text_of (some t) = if str_eq t "" then none else some t

abbrev pub extract_text : Collector → List ℕ → Url → Result (Option String)
extract_text w body url = w.extract body url >>= λ t. ok (stripped w.strip t)

abbrev pub or_unknown : Option String → String
or_unknown none = "unknown"
or_unknown (some h) = if str_eq h "" then "unknown" else h

-- `f"{scheme}://{hostname}"`
abbrev pub base_of : Url → String
base_of u = str_append u.scheme (str_append "://" (or_unknown u.hostname))

abbrev pub source_of : ℕ → Url → Source
source_of fresh u = record {
  id = fresh;
  name = or_unknown u.hostname;
  source_type = other;
  base_url = some (base_of u);
  default_language = none;
  enabled = true;
}

abbrev pub endpoint_of : ℕ → ℕ → Url → SourceEndpoint
endpoint_of fresh source u = record {
  id = fresh;
  source_id = source;
  endpoint_type = EndpointType.manual;
  url = u;
  schedule = none;
  parser_name = none;
  priority = 100;
  last_success_at = none;
  last_failure_at = none;
  failure_count = 0;
}

-- `_resolve_source`
unfoldable pub resolve_source :
    Moment → Option ℕ → Url → IngestionStore → IngestionStore × Result Source
resolve_source m (some i) u s = (s, or_raise (get_source i s) not_found)
resolve_source m none u s =
    let source = source_of m.source_id u in
    (insert_endpoint (endpoint_of m.endpoint_id m.source_id u) (insert_source source s), ok source)

-- `sum(len(p.split()))` over the paragraphs is the count of the joined text.
abbrev pub words_in : (String → ℕ) → List String → ℕ
words_in count [] = 0
words_in count (p ∷ ps) = count p + words_in count ps

-- The loop over the chunks, from a sequence number.
unfoldable pub add_chunks :
    (String → ℕ) → ℕ → ℕ → List (List String) → IngestionStore → IngestionStore
add_chunks count i sequence [] s = s
add_chunks count i sequence (c ∷ cs) s = add_chunks count i (sequence + 1) cs (
    add_chunk
      (record { document_id = i; sequence = sequence; text = c; token_count = words_in count c }) s)

-- What the steps of a submission pass on: the document, the tables, and how it ends.
abbrev pub Progress : Type 0
Progress = Document × IngestionStore × Result (Unit {0})

abbrev pub saved : Document → IngestionStore → Progress
saved d s = (d, save_document d s, ok tt)

-- Stage 4, with the duplicate that was found.
abbrev pub finish_parsed :
    Collector → String → Option Document → Document → IngestionStore → Progress
finish_parsed w text (some x) d s = saved (mark_duplicate x.id d) s
finish_parsed w text none d s = (
  d,
  add_chunks w.word_count d.id 0 (chunk_text w.size w.paragraphs default_chunk_chars text) s,
  ok tt,
)

unfoldable pub store_text : Collector → String → Document → IngestionStore → Progress
store_text w text d s =
    let print = compute_fingerprint w.lower w.hash_shingle (w.code_points text) in
    let parsed = mark_parsed text parser_version print d in
    finish_parsed w text (find_by_fingerprint print (some d.id) s) parsed (save_document parsed s)

abbrev pub parse_text : Collector → Option String → Document → IngestionStore → Progress
parse_text w none d s = (d, s, ok tt)
parse_text w (some text) d s = store_text w text d s

abbrev pub parse_result : Collector → Result (Option String) → Document → IngestionStore → Progress
parse_result w (err e) d s = (d, s, err e)
parse_result w (ok extracted) d s = parse_text w (text_of extracted) d s

-- Stage 3, with the duplicate that was found.
abbrev pub after_hash : Collector → List ℕ → Option Document → Document → IngestionStore → Progress
after_hash w body (some x) d s = saved (mark_duplicate x.id d) s
after_hash w body none d s = parse_result w (extract_text w body d.canonical_url) d s

unfoldable pub archive_parse :
    Collector → Moment → FetchResult → Document → IngestionStore → Progress
archive_parse w m r d s =
    let digest = w.sha256 r.body in
    let fetched = mark_fetched m.object_key digest m.now d in
    let stored = save_document fetched s in
    after_hash w r.body (find_by_content_hash digest (some d.id) stored) fetched stored

abbrev pub after_fetch :
    Collector → Moment → Result FetchResult → Document → IngestionStore → Progress
after_fetch w m (err e) d s = (d, s, err e)
after_fetch w m (ok r) d s = archive_parse w m r d s

unfoldable pub fetch_archive_parse : Collector → Moment → Document → IngestionStore → Progress
fetch_archive_parse w m d s =
    after_fetch w m (fetch_url w.hosts w.resolve w.server d.canonical_url).0 d s

-- `except Exception: mark_failed; raise`
abbrev pub or_failed : Progress → IngestionStore × Result Document
or_failed (d, s, ok _) = (s, ok d)
or_failed (d, s, err e) = (save_document (mark_failed d) s, err e)

abbrev pub submit_new :
    Collector → Moment → Submission → Source → IngestionStore → IngestionStore × Result Document
submit_new w m q source s =
    let d =
      new_document m.document_id source.id (normalize_url q.link) q.title q.external_id
        q.published_at in
    or_failed (fetch_archive_parse w m d (insert_document d s))

abbrev pub submit_found :
    Collector
    → Moment
    → Submission
    → Source
    → Result (Option Document)
    → IngestionStore
    → IngestionStore × Result Document
submit_found w m q source (err e) s = (s, err e)
submit_found w m q source (ok (some existing)) s = (s, ok existing)
submit_found w m q source (ok none) s = submit_new w m q source s

abbrev pub submit_to :
    Collector
    → Moment
    → Submission
    → IngestionStore × Result Source
    → IngestionStore × Result Document
submit_to w m q (s, err e) = (s, err e)
submit_to w m q (s, ok source) =
    submit_found w m q source (find_by_canonical_url source.id (normalize_url q.link) s) s

abbrev pub when_safe :
    Result (Unit {0})
    → IngestionStore
    → IngestionStore × Result Document
    → IngestionStore × Result Document
when_safe (err e) s rest = (s, err e)
when_safe (ok _) s rest = rest

unfoldable pub submit_url :
    Collector → Moment → Submission → IngestionStore → IngestionStore × Result Document
submit_url w m q s =
    when_safe (validate_url_security w.hosts w.resolve (normalize_url q.link)) s
      (submit_to w m q (resolve_source m q.source_id (normalize_url q.link) s))

-- The session of a request, `get_session` of src/mei/infrastructure/database/session.py: it commits what a
-- handler that returns has written, and rolls back what one that raises has.
abbrev pub in_request :
    {A : Type 0} → IngestionStore → IngestionStore × Result A → IngestionStore × Result A
in_request before (after, ok a) = (after, ok a)
in_request before (after, err e) = (before, err e)
