-- ===== src/Ingestion/Tests.antt =====
-- Runs of the intake on a small table, and the theorems at those inputs.
use middle_east_geopolitic.Ingestion.Service.{
  add_chunks, archive_parse, fetch_archive_parse, resolve_source, parser_version, store_text,
  Moment, Submission, Collector, submit_url,
}
use middle_east_geopolitic.Ingestion.Models.{
  fetched, parsed, DocumentStatus, rss, news_outlet, IngestionStore, Document, Source,
  SourceEndpoint,
}
use middle_east_geopolitic.Common.{
  arith, ◌*◌, length, inl, map, Option, ltb, true, [], ◌+◌, refl, none, ◌≡◌, List, some, ◌∷◌, ℕ,
}
use middle_east_geopolitic.Ingestion.Collect.{collect_endpoint, collect_endpoints, collect_feeds}
use middle_east_geopolitic.Ingestion.Dedup.{
  set_bit, add_votes, weigh_shingles, collect_bits, shingle_size, shingles, compute_fingerprint,
  find_tokens, has_bit, normalize_tokens,
}
use middle_east_geopolitic.Ingestion.Again.{submit_url-again, Settled}
use middle_east_geopolitic.Collection.Fetcher.{
  read_body, accept, response, check_addresses, validate_url_security, broken, follow, fetch_url,
  Url,
}
use middle_east_geopolitic.Ingestion.Archive.{IsArchive}
use middle_east_geopolitic.Ingestion.History.{submitted, here, next, Reach-IsArchive}
use middle_east_geopolitic.Ingestion.Repository.{
  add_chunk, find_by_fingerprint, find_by_content_hash, save_document, insert_document,
  find_by_canonical_url, get_source, mark_endpoint_failure, new_document, mark_fetched, mark_parsed,
  list_endpoints_due,
}
use middle_east_geopolitic.Common.Rows.{order_asc, update, first?, select}
use middle_east_geopolitic.Ingestion.Unlettered.{store_text-unlettered}
use middle_east_geopolitic.Common.Result.{ok}
use middle_east_geopolitic.Ingestion.Dedup.Majority.{compute_fingerprint-majority, supporters}
use middle_east_geopolitic.Collection.Chunks.{take_paragraph, chunk_paragraphs, chunk_text}

abbrev pub page : Url
page = record { scheme = "https"; hostname = some "example.org"; rest = "/a" }

abbrev mirror : Url
mirror = record { scheme = "https"; hostname = some "example.org"; rest = "/b" }

abbrev pub collector : Collector
collector = record {
  hosts = "example.org" ∷ [];
  resolve = λ h. none;
  server = λ left u. response 200 "text/html" ((104 ∷ 105 ∷ []) ∷ []);
  sha256 = λ body. 77;
  extract = λ body u. ok (some "hi there");
  strip = λ t. t;
  code_points = λ t. 104 ∷ 105 ∷ 32 ∷ 116 ∷ [];
  lower = λ t. t;
  hash_shingle = λ t. 6;
  size = λ t. 8;
  paragraphs = λ t. t ∷ [];
  word_count = λ t. 2;
}

-- Every page has the same short text in Arabic letters.
abbrev arabic : Collector
arabic = record collector { code_points = λ t. 1587 ∷ 1604 ∷ 1575 ∷ 1605 ∷ [] }

abbrev broken_web : Collector
broken_web = record collector { server = λ left u. broken }

abbrev moment : ℕ → Moment
moment n = record {
  now = 100 + n;
  source_id = 50 + n;
  endpoint_id = 60 + n;
  document_id = 10 + n;
  object_key = "raw/1";
}

abbrev ask : Url → Submission
ask u = record {
  link = record { url = u; fragment = "top" };
  title = some "A page";
  source_id = some 1;
  external_id = none;
  published_at = none;
}

abbrev pub outlet : Source
outlet = record {
  id = 1;
  name = "Example";
  source_type = news_outlet;
  base_url = none;
  default_language = none;
  enabled = true;
}

abbrev empty : IngestionStore
empty = record { sources = outlet ∷ []; endpoints = []; documents = []; chunks = [] }

abbrev states : IngestionStore → List (DocumentStatus × Option ℕ × Option ℕ)
states s = map (λ d. (d.status, d.duplicate_of_document_id, d.content_fingerprint)) s.documents

first_page :
    states (submit_url collector (moment 0) (ask page) empty).0 ≡ (parsed, none, some 6) ∷ []
unfolding submit_url fetch_url follow validate_url_security check_addresses accept read_body
    resolve_source get_source first? find_by_canonical_url select insert_document
    fetch_archive_parse archive_parse save_document update find_by_content_hash order_asc store_text
    compute_fingerprint find_by_fingerprint add_chunks add_chunk chunk_text chunk_paragraphs
    take_paragraph shingles normalize_tokens find_tokens collect_bits weigh_shingles add_votes
    has_bit set_bit
first_page = refl

abbrev after : IngestionStore
after = (submit_url collector (moment 0) (ask page) empty).0

-- The same bytes at another URL are a duplicate.
mirrored :
    states (submit_url collector (moment 1) (ask mirror) after).0
    ≡ (parsed, none, some 6) ∷ (fetched, some 10, none) ∷ []
unfolding submit_url fetch_url follow validate_url_security check_addresses accept read_body
    resolve_source get_source first? find_by_canonical_url select insert_document
    fetch_archive_parse archive_parse save_document update find_by_content_hash order_asc store_text
    compute_fingerprint find_by_fingerprint add_chunks add_chunk chunk_text chunk_paragraphs
    take_paragraph shingles normalize_tokens find_tokens collect_bits weigh_shingles add_votes
    has_bit set_bit
mirrored = refl

submit_url-again_example :
    Settled broken_web 1 (ask page) empty (submit_url broken_web (moment 0) (ask page) empty)
submit_url-again_example = submit_url-again broken_web 1 (moment 0) (ask page) empty refl tt

empty-IsArchive : IsArchive empty.documents
empty-IsArchive = record { apart = tt; targets = tt }

Reach-IsArchive_example : IsArchive (submit_url collector (moment 0) (ask page) empty).0.documents
Reach-IsArchive_example =
    Reach-IsArchive collector empty-IsArchive (next here (submitted (moment 0) (ask page) empty tt))

compute_fingerprint-majority_example :
    has_bit (compute_fingerprint collector.lower collector.hash_shingle (104 ∷ 105 ∷ [])) 2
    ≡ ltb (length (shingles shingle_size (normalize_tokens collector.lower (104 ∷ 105 ∷ [])))) (
        2
        * supporters collector.hash_shingle 2
            (shingles shingle_size (normalize_tokens collector.lower (104 ∷ 105 ∷ []))))
compute_fingerprint-majority_example =
    compute_fingerprint-majority collector.lower collector.hash_shingle (104 ∷ 105 ∷ []) 2
      (omega arith)

-- "Hi there" in lower case, and the fingerprint of its single shingle.
tokens_of :
    normalize_tokens (λ t. t) (104 ∷ 105 ∷ 32 ∷ 116 ∷ []) ≡ (104 ∷ 105 ∷ []) ∷ (116 ∷ []) ∷ []
unfolding normalize_tokens find_tokens
tokens_of = refl

abbrev known : Document
known = mark_parsed "a" parser_version 0 (new_document 3 1 mirror none none none)

abbrev fetched_page : Document
fetched_page = mark_fetched "raw/1" 78 101 (new_document 11 1 page none none none)

abbrev archive : IngestionStore
archive = record empty { documents = known ∷ fetched_page ∷ [] }

store_text-unlettered_example :
    (y : Document) × ((store_text arabic "b" fetched_page archive).0.duplicate_of_document_id
      ≡ some y.id)
    × ((store_text arabic "b" fetched_page archive).1.chunks ≡ archive.chunks)
store_text-unlettered_example =
    store_text-unlettered arabic "b" fetched_page known archive (refl, (refl, (refl, (refl, tt))))
      (inl refl) refl refl

abbrev feed : SourceEndpoint
feed = record {
  id = 5;
  source_id = 1;
  endpoint_type = rss;
  url = page;
  schedule = some "critical";
  parser_name = none;
  priority = 100;
  last_success_at = none;
  last_failure_at = none;
  failure_count = 3;
}

abbrev watched : IngestionStore
watched = record empty { endpoints = feed ∷ [] }

-- A feed that cannot be fetched is noted, and the poll goes on.
failing_feed :
    (collect_feeds broken_web (λ body. []) (λ k n. moment n) "critical" watched).0.endpoints
    ≡ record feed { last_failure_at = some 100; failure_count = 4 } ∷ []
unfolding collect_feeds list_endpoints_due select first? collect_endpoints collect_endpoint
    fetch_url follow validate_url_security mark_endpoint_failure update get_source
failing_feed = refl
