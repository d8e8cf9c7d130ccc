-- ===== src/Ingestion/Contents.antt =====
-- When a row shares content with an earlier one, by the digests that the queries of
-- src/mei/infrastructure/repositories/documents.py compare, and how a submission ends.
use middle_east_geopolitic.Ingestion.Entry.{same_content, IsSorted, shared}
use middle_east_geopolitic.Ingestion.Models.{DocumentStatus, Document}
use middle_east_geopolitic.Common.{
  inr, inl, Option-cases, ◌⊎◌, [], arith, false, true, ◌∷◌, All, ℕ, none, ◌≡◌, List, Option,
}
use middle_east_geopolitic.Ingestion.Repository.{mark_failed}
use middle_east_geopolitic.Common.Result.{Error, err, ok, Result}

shared-none : (a : Option ℕ) → shared a none ≡ false
shared-none a = ground arith

not_same :
    (d x : Document)
    → shared x.content_hash d.content_hash ≡ false
    → shared x.content_fingerprint d.content_fingerprint ≡ false
    → same_content x d ≡ false
not_same d x p q = ground arith

pub same_hash :
    (x d : Document) → shared x.content_hash d.content_hash ≡ true → same_content x d ≡ true
same_hash x d t = ground arith

pub same_print :
    (x d : Document)
    → shared x.content_fingerprint d.content_fingerprint ≡ true
    → same_content x d ≡ true
same_print x d t = ground arith

-- What the row shares with no earlier one: the content hash, or both digests.
abbrev pub NewHash : List Document → Document → Type 0
NewHash docs d = All (λ x. shared x.content_hash d.content_hash ≡ false) docs

abbrev pub NewPrint : List Document → Document → Type 0
NewPrint docs d = All (λ x. shared x.content_fingerprint d.content_fingerprint ≡ false) docs

pub all_new :
    (docs : List Document) (d : Document) → NewHash docs d → NewPrint docs d → IsSorted docs d none
all_new [] d h k = tt
all_new (x ∷ xs) d h k = (not_same d x h.0 k.0, all_new xs d h.1 k.1)

pub no_print :
    (docs : List Document) (d : Document) → d.content_fingerprint ≡ none → NewPrint docs d
no_print docs d e = rw e (everywhere docs)
  where
    everywhere : (xs : List Document) → All (λ x. shared x.content_fingerprint none ≡ false) xs
    everywhere [] = tt
    everywhere (x ∷ xs) = (shared-none x.content_fingerprint, everywhere xs)

pub no_hash : (docs : List Document) (d : Document) → d.content_hash ≡ none → NewHash docs d
no_hash docs d e = rw e (everywhere docs)
  where
    everywhere : (xs : List Document) → All (λ x. shared x.content_hash none ≡ false) xs
    everywhere [] = tt
    everywhere (x ∷ xs) = (shared-none x.content_hash, everywhere xs)

-- A failure changes the status alone.
pub failed_IsSorted :
    (docs : List Document) (d : Document)
    → IsSorted docs d d.duplicate_of_document_id
    → IsSorted docs (mark_failed d) d.duplicate_of_document_id
failed_IsSorted docs d h = elim (Option-cases d.duplicate_of_document_id) [
  | inl e ↦ rw e (rw e at h)
  | inr (j, e) ↦ rw e (rw e at h)
]

-- The call returns the row, or it raises and the row is marked as failed.
abbrev pub Ending : Document → Result Document → Type 0
Ending d r = (r ≡ ok d) ⊎ ((e : Error) × (r ≡ err e) × (d.status ≡ DocumentStatus.failed))

pub returned_or_failed :
    (d : Document) (r : Result Document)
    → Ending d r
    → (r ≡ ok d) ⊎ (d.status ≡ DocumentStatus.failed)
returned_or_failed d r (inl e) = inl e
returned_or_failed d r (inr (e, h, k)) = inr k
