-- ===== src/Ingestion/Archive.antt =====
-- The table of documents of src/mei/application/services/source_ingestion.py as an archive: one row for
-- each URL of a source, and one original for each content.
use middle_east_geopolitic.Ingestion.Entry.{IsSorted, same_content}
use middle_east_geopolitic.Common.{
  true, Elem, All-impl, All-append, some, none, false, [], ℕ, ◌≡◌, All, ◌++◌, Option, ◌==◌, ◌∷◌,
  List,
}
use middle_east_geopolitic.Ingestion.Models.{Document}
use middle_east_geopolitic.Common.Rows.Laws.{All-Elem, Elem-append}
use middle_east_geopolitic.Ingestion.Repository.{is_at}

-- Two rows have different ids and different places, and share no content where neither is a duplicate.
abbrev pub Apart : Document → Document → Type 0
Apart d x =
    ((x.id == d.id) ≡ false)
    × (is_at d.source_id d.canonical_url x ≡ false)
    × (x.duplicate_of_document_id ≡ none
        → d.duplicate_of_document_id ≡ none
        → same_content x d ≡ false)

abbrev pub AllApart : List Document → Type 0
AllApart [] = Unit
AllApart (x ∷ xs) = All (λ d. Apart d x) xs × AllApart xs

-- A duplicate names another row, which has the same content.
abbrev pub HasTarget : List Document → Document → Option ℕ → Type 0
HasTarget docs d none = Unit
HasTarget docs d (some j) =
    (x : Document) × Elem x docs × (x.id ≡ j) × ((x.id == d.id) ≡ false) × (same_content x d ≡ true)

pub record IsArchive (docs : List Document) : Type 0 where
  pub apart : AllApart docs
  pub targets : All (λ d. HasTarget docs d d.duplicate_of_document_id) docs

-- A row that may be added.
pub record Fits (docs : List Document) (d : Document) : Type 0 where
  pub fresh : All (λ x. (x.id == d.id) ≡ false) docs
  pub placed : All (λ x. is_at d.source_id d.canonical_url x ≡ false) docs
  pub sorted : IsSorted docs d d.duplicate_of_document_id

AllApart-snoc :
    (docs : List Document) (d : Document)
    → AllApart docs
    → All (Apart d) docs
    → AllApart (docs ++ (d ∷ []))
AllApart-snoc [] d h k = (tt, tt)
AllApart-snoc (x ∷ xs) d h k =
    (All-append (λ y. Apart y x) xs (d ∷ []) h.0 (k.0, tt), AllApart-snoc xs d h.1 k.1)

-- Whether the row shares content with an earlier one, read off its mark.
apart_content :
    (docs : List Document) (d : Document) (mark : Option ℕ)
    → IsSorted docs d mark
    → mark ≡ none
    → All (λ x. same_content x d ≡ false) docs
apart_content docs d none h e = h
apart_content docs d (some j) h e = cc

All-Apart :
    (d : Document) (xs : List Document)
    → All (λ x. (x.id == d.id) ≡ false) xs
    → All (λ x. is_at d.source_id d.canonical_url x ≡ false) xs
    → (d.duplicate_of_document_id ≡ none → All (λ x. same_content x d ≡ false) xs)
    → All (Apart d) xs
All-Apart d [] h k c = tt
All-Apart d (x ∷ xs) h k c = ((h.0, k.0, (λ _ e. (c e).0)), All-Apart d xs h.1 k.1 (λ e. (c e).1))

HasTarget-grow :
    (docs more : List Document) (d : Document) (mark : Option ℕ)
    → HasTarget docs d mark
    → HasTarget (docs ++ more) d mark
HasTarget-grow docs more d none h = tt
HasTarget-grow docs more d (some j) (x, m, e, f, t) = (x, Elem-append docs more x m, e, f, t)

sorted_target :
    (docs : List Document) (d : Document) (mark : Option ℕ)
    → All (λ x. (x.id == d.id) ≡ false) docs
    → IsSorted docs d mark
    → HasTarget (docs ++ (d ∷ [])) d mark
sorted_target docs d none f h = tt
sorted_target docs d (some j) f (x, m, e, t) =
    (x, Elem-append docs (d ∷ []) x m, e, All-Elem (λ y. (y.id == d.id) ≡ false) docs x f m, t)

pub IsArchive-snoc :
    (docs : List Document) (d : Document)
    → IsArchive docs
    → Fits docs d
    → IsArchive (docs ++ (d ∷ []))
IsArchive-snoc docs d r f = record {
  apart = AllApart-snoc docs d r.apart (
      All-Apart d docs f.fresh f.placed (apart_content docs d d.duplicate_of_document_id f.sorted));
  targets =
      All-append _ docs (d ∷ [])
        (All-impl (λ x. HasTarget docs x x.duplicate_of_document_id) _
          (λ x. HasTarget-grow docs (d ∷ []) x x.duplicate_of_document_id) docs r.targets)
        (sorted_target docs d d.duplicate_of_document_id f.fresh f.sorted, tt);
}
