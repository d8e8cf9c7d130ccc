-- ===== src/Ingestion/Models.antt =====
-- src/mei/domain/sources/models.py and documents/models.py: the rows of the tables of the intake, with the
-- enumerations of src/mei/shared/enums.py that they use. A URL is taken as `urlparse` reads it, with its
-- fragment beside it. What no code here reads or writes (embeddings, ownership and the like) is left out.
use middle_east_geopolitic.Common.{
  ℕ, String, Bool, Option, none, some, List, ◌&&◌, str_eq, false, true,
}
use middle_east_geopolitic.Collection.Fetcher.{Url}

pub data SourceType : Type 0 where
  news_outlet wire_service government think_tank ngo academic : SourceType
  social_media state_media satellite telegram other : SourceType

pub data EndpointType : Type 0 where
  rss html api manual : EndpointType

abbrev pub is_rss : EndpointType → Bool
is_rss rss = true
is_rss _ = false

pub data DocumentStatus : Type 0 where
  pending fetched parsed failed : DocumentStatus

abbrev pub is_parsed : DocumentStatus → Bool
is_parsed parsed = true
is_parsed _ = false

abbrev pub str?_eq : Option String → Option String → Bool
str?_eq none none = true
str?_eq (some a) (some b) = str_eq a b
str?_eq _ _ = false

abbrev pub url_eq : Url → Url → Bool
url_eq u v = str_eq u.scheme v.scheme && str?_eq u.hostname v.hostname && str_eq u.rest v.rest

-- A URL with its fragment.
pub record Link : Type 0 where
  pub url : Url
  pub fragment : String

pub record Source : Type 0 where
  pub id : ℕ
  pub name : String
  pub source_type : SourceType
  pub base_url : Option String
  pub default_language : Option String
  pub enabled : Bool

pub record SourceEndpoint : Type 0 where
  pub id : ℕ
  pub source_id : ℕ
  pub endpoint_type : EndpointType
  pub url : Url
  pub schedule : Option String
  pub parser_name : Option String
  pub priority : ℕ
  pub last_success_at : Option ℕ
  pub last_failure_at : Option ℕ
  pub failure_count : ℕ

pub record Document : Type 0 where
  pub id : ℕ
  pub source_id : ℕ
  pub canonical_url : Url
  pub external_id : Option String
  pub title : Option String
  pub published_at : Option ℕ
  pub retrieved_at : Option ℕ
  pub content_hash : Option ℕ
  pub raw_object_key : Option String
  pub extracted_text : Option String
  pub translation_text : Option String
  pub parser_version : Option String
  pub status : DocumentStatus
  pub content_fingerprint : Option ℕ
  pub duplicate_of_document_id : Option ℕ

-- The text of a chunk is the list of the paragraphs that it joins.
pub record DocumentChunk : Type 0 where
  pub document_id : ℕ
  pub sequence : ℕ
  pub text : List String
  pub token_count : ℕ

pub record IngestionStore : Type 0 where
  pub sources : List Source
  pub endpoints : List SourceEndpoint
  pub documents : List Document
  pub chunks : List DocumentChunk
