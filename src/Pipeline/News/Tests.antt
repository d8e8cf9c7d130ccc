-- ===== src/Pipeline/News/Tests.antt =====
-- A run of the news job over one feed of one item, and the theorem at it.
use middle_east_geopolitic.Common.{ℕ, ◌+◌, List, [], ◌∷◌, some, none, String}
use middle_east_geopolitic.Common.Int.{ℤ}
use middle_east_geopolitic.Common.Fixed.{thousandths}
use middle_east_geopolitic.Common.Result.{Result, ok}
use middle_east_geopolitic.Casework.Extraction.Models.{ExtractionResult}
use middle_east_geopolitic.Casework.Extraction.Tests.{reading}
use middle_east_geopolitic.Ingestion.Models.{Document, IngestionStore, SourceEndpoint, EndpointType}
use middle_east_geopolitic.Ingestion.Collect.{FeedItem}
use middle_east_geopolitic.Ingestion.Tests.{collector, outlet, page}
use middle_east_geopolitic.Pipeline.Jobs.{Collation}
use middle_east_geopolitic.Pipeline.News.{news_documents, Moments}

-- More than the id of any document.
abbrev next_id : List Document → ℕ
next_id [] = 0
next_id (d ∷ ds) = d.id + (next_id ds + 1)

abbrev moments : Moments
moments k n s = record {
  now = 100 + k;
  source_id = 50;
  endpoint_id = 60;
  document_id = next_id s.documents;
  object_key = "raw/1";
}

abbrev endpoint : ℕ → EndpointType → SourceEndpoint
endpoint i kind = record {
  id = i;
  source_id = 1;
  endpoint_type = kind;
  url = page;
  schedule = none;
  parser_name = none;
  priority = 100;
  last_success_at = none;
  last_failure_at = none;
  failure_count = 0;
}

abbrev tables : IngestionStore
tables = record {
  sources = outlet ∷ [];
  endpoints = endpoint 2 EndpointType.html ∷ endpoint 3 EndpointType.rss ∷ [];
  documents = [];
  chunks = [];
}

-- It has no id of its own.
abbrev item : FeedItem
item = record {
  link = record { url = page; fragment = "" };
  title = some "A page";
  external_id = none;
  published_at = none;
}

abbrev parse_feed : List ℕ → List FeedItem
parse_feed body = item ∷ []

abbrev model : String → Result (ExtractionResult ℤ)
model t = ok reading

abbrev by_first : Collation
by_first t = 0

abbrev collected : List ℕ × IngestionStore
collected = news_documents collector parse_feed moments by_first tables
