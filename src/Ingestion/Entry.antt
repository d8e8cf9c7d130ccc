-- ===== src/Ingestion/Entry.antt =====
-- What a submission of src/mei/application/services/source_ingestion.py adds to the table of documents: one
-- row at the end, told apart from every other row or marked as a duplicate of one.
use middle_east_geopolitic.Ingestion.Models.{Document, IngestionStore}
use middle_east_geopolitic.Common.{
  All-both, inr, inl, ◌&&◌, head?, arith, sym, subst, ◌∙◌, true, none, [], ap, Elem, some, ◌∷◌,
  ◌==◌, ◌++◌, false, All, ℕ, ◌||◌, ◌≡◌, List, Option, Bool,
}
use middle_east_geopolitic.Ingestion.Repository.{
  is_other, find_by_fingerprint, digest_eq, find_by_content_hash, save_document,
}
use middle_east_geopolitic.Common.Rows.{select, order_asc, update}
use middle_east_geopolitic.Common.Rows.First.{
  Elem-snoc, All-init, earliest_sound, earliest-none, update-snoc,
}

-- Both digests are there and equal.
abbrev pub shared : Option ℕ → Option ℕ → Bool
shared (some a) (some b) = a == b
shared _ _ = false

-- The two rows have the same content or the same text.
abbrev pub same_content : Document → Document → Bool
same_content x d =
    shared x.content_hash d.content_hash || shared x.content_fingerprint d.content_fingerprint

-- A row that is no duplicate shares no digest with a row of the table; a duplicate names another row of the
-- table, which shares one.
abbrev pub IsSorted : List Document → Document → Option ℕ → Type 0
IsSorted docs d none = All (λ x. same_content x d ≡ false) docs
IsSorted docs d (some j) = (x : Document) × Elem x docs × (x.id ≡ j) × (same_content x d ≡ true)

-- The row, entered as `d0`, stands last in the table as `d`.
pub record Entered (docs : List Document) (d0 d : Document) (s : IngestionStore) : Type 0 where
  pub last : s.documents ≡ docs ++ (d ∷ [])
  pub same_id : d.id ≡ d0.id
  pub same_source : d.source_id ≡ d0.source_id
  pub same_url : d.canonical_url ≡ d0.canonical_url

digest_told :
    (column : Document → Option ℕ) (digest : ℕ) (d d0 x : Document)
    → d.id ≡ d0.id
    → (digest_eq (column x) digest && is_other (some d.id) x.id) ≡ false
    → (x.id == d0.id) ≡ false
    → shared (column x) (some digest) ≡ false
digest_told column digest d d0 x e p q = ground arith

not_itself :
    (column : Document → Option ℕ) (digest : ℕ) (d x : Document)
    → x ≡ d
    → (digest_eq (column x) digest && is_other (some d.id) x.id) ≡ true
    → ⊥
not_itself column digest d x p t =
    let e : x.id ≡ d.id = ap (λ (y : Document). y.id) p in ground arith

module _ (docs : List Document) (d0 : Document)
    (fresh : All (λ x. (x.id == d0.id) ≡ false) docs) where
  -- A flushed change of the row.
  pub save_document-Entered :
      (d d' : Document) (s : IngestionStore)
      → Entered docs d0 d s
      → d'.id ≡ d.id
      → d'.source_id ≡ d.source_id
      → d'.canonical_url ≡ d.canonical_url
      → Entered docs d0 d' (save_document d' s)
  unfolding save_document
  save_document-Entered d d' s e i p q = record {
    last =
        ap (update (λ x. x.id == d'.id) (λ _. d')) e.last
        ∙ update-snoc (λ x. x.id == d'.id) (λ _. d') docs d
            (subst (λ k. All (λ x. (x.id == k) ≡ false) docs) (sym (i ∙ e.same_id)) fresh)
            (ground arith);
    same_id = i ∙ e.same_id;
    same_source = p ∙ e.same_source;
    same_url = q ∙ e.same_url;
  }

  -- A query for another row with a digest, run when the row itself is stored.
  abbrev with_digest : (Document → Option ℕ) → ℕ → ℕ → Document → Bool
  with_digest column digest i x = digest_eq (column x) digest && is_other (some i) x.id

  digest-none :
      (column : Document → Option ℕ) (digest : ℕ) (d : Document) (s : IngestionStore)
      → Entered docs d0 d s
      → head? (order_asc (λ x. x.id) (select (with_digest column digest d.id) s.documents)) ≡ none
      → All (λ x. shared (column x) (some digest) ≡ false) docs
  digest-none column digest d s e h =
      let all =
        subst (All (λ x. with_digest column digest d.id x ≡ false)) e.last
          (earliest-none (λ x. x.id) (with_digest column digest d.id) s.documents h) in
      All-both _ _ _ (λ x p q. digest_told column digest d d0 x e.same_id p q) docs
        (All-init _ docs d all) fresh

  digest-some :
      (column : Document → Option ℕ) (digest : ℕ) (d x : Document) (s : IngestionStore)
      → Entered docs d0 d s
      → head? (order_asc (λ x. x.id) (select (with_digest column digest d.id) s.documents)) ≡ some x
      → Elem x docs × (shared (column x) (some digest) ≡ true)
  digest-some column digest d x s e h =
      let (m, t) = earliest_sound (λ x. x.id) (with_digest column digest d.id) s.documents x h in
      elim (Elem-snoc docs x d (subst (Elem x) e.last m)) [
        | inl k ↦ (k, ground arith)
        | inr p ↦ absurd (not_itself column digest d x p t)
      ]

  pub hash-none :
      (digest : ℕ) (d : Document) (s : IngestionStore)
      → Entered docs d0 d s
      → find_by_content_hash digest (some d.id) s ≡ none
      → All (λ x. shared x.content_hash (some digest) ≡ false) docs
  unfolding find_by_content_hash
  hash-none digest d s e h = digest-none (λ x. x.content_hash) digest d s e h

  pub hash-some :
      (digest : ℕ) (d x : Document) (s : IngestionStore)
      → Entered docs d0 d s
      → find_by_content_hash digest (some d.id) s ≡ some x
      → Elem x docs × (shared x.content_hash (some digest) ≡ true)
  unfolding find_by_content_hash
  hash-some digest d x s e h = digest-some (λ x. x.content_hash) digest d x s e h

  pub fingerprint-none :
      (print : ℕ) (d : Document) (s : IngestionStore)
      → Entered docs d0 d s
      → find_by_fingerprint print (some d.id) s ≡ none
      → All (λ x. shared x.content_fingerprint (some print) ≡ false) docs
  unfolding find_by_fingerprint
  fingerprint-none print d s e h = digest-none (λ x. x.content_fingerprint) print d s e h

  pub fingerprint-some :
      (print : ℕ) (d x : Document) (s : IngestionStore)
      → Entered docs d0 d s
      → find_by_fingerprint print (some d.id) s ≡ some x
      → Elem x docs × (shared x.content_fingerprint (some print) ≡ true)
  unfolding find_by_fingerprint
  fingerprint-some print d x s e h = digest-some (λ x. x.content_fingerprint) print d x s e h
