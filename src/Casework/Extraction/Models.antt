-- ===== src/Casework/Extraction/Models.antt =====
-- src/mei/application/services/extraction.py: what a language model reads in a document, and the
-- tests on texts, times and names. The parser of dates and the model are parameters.
use middle_east_geopolitic.Common.{
  ◌||◌, ◌&&◌, ◌==◌, [], ◌∷◌, str_eq, false, if◌then◌else◌, Bool, some, none, List, ℕ, Option,
  String,
}
use middle_east_geopolitic.Casework.Models.{CaseStore}
use middle_east_geopolitic.Casework.Resolution.{ActorCandidate, Thresholds}
use middle_east_geopolitic.Common.Result.{◌>>=◌, value_error, or_raise, Result}
use middle_east_geopolitic.Casework.Review.{given}

pub record ExtractedClaim (F : Type 0) : Type 0 where
  pub text : String
  pub claimant_name : Option String
  pub subject_name : Option String
  pub claim_type : String
  pub event_reference : Option String
  pub source_excerpt : String
  pub extraction_confidence : F

pub record ExtractedEventActor : Type 0 where
  pub name : String
  pub role : String

pub record ExtractedEvent : Type 0 where
  pub event_type : String
  pub title : String
  pub summary : Option String
  pub temporal_reference : Option String
  pub actors : List ExtractedEventActor

pub record ExtractionResult (F : Type 0) : Type 0 where
  pub claims : List (ExtractedClaim F)
  pub events : List ExtractedEvent

-- What the service reads of a document.
pub record SourceText : Type 0 where
  pub id : ℕ
  pub extracted_text : Option String
  pub translation_text : Option String
  pub published_at : Option ℕ
  pub retrieved_at : Option ℕ

-- `a or b`, where the empty text counts as none
abbrev pub first_text : Option String → Option String → Option String
first_text a b = elim (given a) [ none ↦ given b | some t ↦ some t ]

abbrev pub or_time : Option ℕ → ℕ → ℕ
or_time none b = b
or_time (some t) b = t

-- `extract`: the reply of the model to the text, which must be there.
unfoldable pub extract :
    {F : Type 0} → (String → Result (ExtractionResult F)) → SourceText → Result (ExtractionResult F)
extract model document =
    or_raise (first_text document.translation_text document.extracted_text) value_error >>= model

-- The names that are known, with the thresholds; the parser of dates, which is given the time that
-- relative dates refer to; the setting of the window, in seconds; and the author that claims name.
pub record Reader (F : Type 0) : Type 0 where
  pub ratio : String → String → F
  pub thresholds : Thresholds F
  pub exact : String → Option ℕ
  pub pool : List ActorCandidate
  pub parse_date : String → ℕ → Option ℕ
  pub window : ℕ
  pub author : ℕ
  pub now : ℕ
  pub ids : ℕ → ℕ  -- the ids that `uuid7` gives, one after another

-- The tables, and how many ids were used.
pub record Session (F : Type 0) : Type 0 where
  pub used : ℕ
  pub store : CaseStore F

abbrev exact_or : Option ℕ → ℕ → ℕ × String
exact_or none fallback = (fallback, "approximate")
exact_or (some t) fallback = (t, "exact")

-- `_resolve_temporal`
unfoldable pub resolve_temporal :
    (String → ℕ → Option ℕ) → ℕ → Option String → SourceText → ℕ × String
resolve_temporal parse_date now reference document =
    let fallback = or_time document.published_at (or_time document.retrieved_at now) in
    elim (given reference) [
      | none ↦ (fallback, "approximate")
      | some t ↦ exact_or (parse_date t fallback) fallback
    ]

abbrev pub has_link : ℕ → String → List (ℕ × String) → Bool
has_link actor role [] = false
has_link actor role ((a, r) ∷ rest) = (a == actor && str_eq r role) || has_link actor role rest

-- `event_by_title`, the latest entry first
abbrev pub by_title : String → List (String × ℕ) → Option ℕ
by_title t [] = none
by_title t ((u, i) ∷ rest) = if str_eq u t then some i else by_title t rest

abbrev pub referenced : Option String → List (String × ℕ) → Option ℕ
referenced reference titles = elim (given reference) [ none ↦ none | some t ↦ by_title t titles ]
