-- ===== src/Pipeline/News/Claims.antt =====
-- What the news job adds to the tables of cases.
use middle_east_geopolitic.Common.{◌≡◌, ◌+◌, ℕ, List, [], ◌∷◌, Option, some, none, String, length}
use middle_east_geopolitic.Common.Result.{Result, ok, err}
use middle_east_geopolitic.Common.Float.{Float}
use middle_east_geopolitic.Casework.Extraction.Models.{Session, ExtractionResult, extract}
use middle_east_geopolitic.Ingestion.Models.{Document, IngestionStore}
use middle_east_geopolitic.Ingestion.Repository.{get_document}
use middle_east_geopolitic.Pipeline.News.{source_text}
use middle_east_geopolitic.Casework.Extraction.Columns.{is_within, ReplyFits, StoreFits}

module _ {F : Type 0} where
  -- How many claims the model reads, of one reply, of one document and of several.
  abbrev pub claims_in : Result (ExtractionResult F) → ℕ
  claims_in (err e) = 0
  claims_in (ok x) = length x.claims

  abbrev pub claims_read : (String → Result (ExtractionResult F)) → Option Document → ℕ
  claims_read model none = 0
  claims_read model (some d) = claims_in (extract model (source_text d))

  abbrev pub claims_of : Option (String → Result (ExtractionResult F)) → List ℕ → IngestionStore → ℕ
  claims_of none ids s = 0
  claims_of (some model) [] s = 0
  claims_of (some model) (i ∷ is) s =
      claims_read model (get_document i s) + claims_of (some model) is s

  -- Every reply fits the columns of the tables.
  abbrev pub RepliesFit : Option (String → Result (ExtractionResult F)) → Type 0
  RepliesFit none = Unit
  RepliesFit (some model) =
      (t : String) (x : ExtractionResult F) → model t ≡ ok x → ReplyFits is_within x

  -- A call that succeeds, adds so many claims, and leaves rows that fit.
  abbrev pub Adds : Session F → ℕ → Result (Session F) → Type 0
  Adds p k r =
      (q : Session F) × (r ≡ ok q)
      × (length q.store.claims ≡ length p.store.claims + k)
      × StoreFits is_within q.store
