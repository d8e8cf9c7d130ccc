-- ===== src/Ingestion/History.antt =====
-- Histories of the tables of the intake, and what holds in each of them.
use middle_east_geopolitic.Ingestion.Service.{Submission, Moment, Collector, submit_url}
use middle_east_geopolitic.Ingestion.Repository.{
  clear_chunks, mark_endpoint_failure, mark_endpoint_success,
}
use middle_east_geopolitic.Ingestion.Models.{IngestionStore}
use middle_east_geopolitic.Ingestion.Archive.{IsArchive-snoc, IsArchive}
use middle_east_geopolitic.Ingestion.Submit.{submit_url-Kept, Kept}
use middle_east_geopolitic.Common.{inr, ℕ, false, sym, ◌≡◌, subst, inl, ◌==◌, All}

-- A step: a submission, whose row gets a new id; the outcome of a poll noted at an endpoint; the chunks of
-- a document cleared.
pub data Step (w : Collector) : IngestionStore → IngestionStore → Type 0 where
  submitted :
      (m : Moment) (q : Submission) (s : IngestionStore)
      → All (λ x. (x.id == m.document_id) ≡ false) s.documents
      → Step w s (submit_url w m q s).0
  endpoint_succeeded : (i t : ℕ) (s : IngestionStore) → Step w s (mark_endpoint_success i t s)
  endpoint_failed : (i t : ℕ) (s : IngestionStore) → Step w s (mark_endpoint_failure i t s)
  chunks_cleared : (i : ℕ) (s : IngestionStore) → Step w s (clear_chunks i s)

pub data Reach (w : Collector) (s : IngestionStore) : IngestionStore → Type 0 where
  here : Reach w s s
  next : {t u : IngestionStore} → Reach w s t → Step w t u → Reach w s u

pub Kept-IsArchive :
    (w : Collector) (m : Moment) (q : Submission) (s s' : IngestionStore)
    → IsArchive s.documents
    → Kept w m q s s'
    → IsArchive s'.documents
Kept-IsArchive w m q s s' r (inl e) = subst IsArchive (sym e) r
Kept-IsArchive w m q s s' r (inr (d, g)) =
    subst IsArchive (sym g.last) (IsArchive-snoc s.documents d r g.fits)

Step-IsArchive :
    (w : Collector) {s s' : IngestionStore}
    → IsArchive s.documents
    → Step w s s'
    → IsArchive s'.documents
unfolding mark_endpoint_success mark_endpoint_failure clear_chunks
Step-IsArchive w r (submitted m q s fresh) =
    Kept-IsArchive w m q s _ r (submit_url-Kept w m q s fresh)
Step-IsArchive w r (endpoint_succeeded i t s) = r
Step-IsArchive w r (endpoint_failed i t s) = r
Step-IsArchive w r (chunks_cleared i s) = r

-- In every history of submissions and noted polls from an archive: no two documents have the same id, or
-- the same URL of the same source; no two documents that are not marked as duplicates have the same content
-- hash or the same fingerprint; and each one that is marked names another document of the table, with the
-- same content hash or the same fingerprint.
pub Reach-IsArchive :
    (w : Collector) {s t : IngestionStore}
    → IsArchive s.documents
    → Reach w s t
    → IsArchive t.documents
Reach-IsArchive w r here = r
Reach-IsArchive w r (next path step) = Step-IsArchive w (Reach-IsArchive w r path) step
