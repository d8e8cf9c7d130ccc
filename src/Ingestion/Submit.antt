-- ===== src/Ingestion/Submit.antt =====
-- What `submit_url` of src/mei/application/services/source_ingestion.py does to the table of documents, on
-- every branch.
use middle_east_geopolitic.Ingestion.Service.{
  fetch_archive_parse, submit_new, submit_to, submit_found, normalize_url, when_safe,
  resolve_source, Moment, Submission, Collector, submit_url,
}
use middle_east_geopolitic.Ingestion.Archive.{Fits}
use middle_east_geopolitic.Common.{
  ◌∙◌, Elem, inr, sym, subst, refl, arith, false, inl, none, some, ◌∷◌, ◌++◌, ◌⊎◌, [], ◌==◌, ◌≡◌,
  All, Option, ℕ, List,
}
use middle_east_geopolitic.Common.Rows.{select}
use middle_east_geopolitic.Ingestion.Models.{Source, IngestionStore, Document}
use middle_east_geopolitic.Ingestion.Repository.{
  new_document, insert_endpoint, is_at, insert_source, insert_document, one_or_none,
  find_by_canonical_url,
}
use middle_east_geopolitic.Common.Result.{ok_inj, err, ok, Result}
use middle_east_geopolitic.Collection.Fetcher.{Url}
use middle_east_geopolitic.Ingestion.Sorted.{fetch_archive_parse-Sorted, or_failed-Sorted}
use middle_east_geopolitic.Common.Rows.Laws.{select_sound}
use middle_east_geopolitic.Ingestion.Contents.{Ending}

-- The URL of the source has a row: which one, and whether the call returned it or it failed.
pub record Grown (docs : List Document) (d : Document) (s : IngestionStore) : Type 0 where
  pub last : s.documents ≡ docs ++ (d ∷ [])
  pub fits : Fits docs d

pub one_or_none-none : (xs : List Document) → one_or_none xs ≡ ok none → xs ≡ []
one_or_none-none [] h = refl
one_or_none-none (x ∷ []) h = cc
one_or_none-none (x ∷ y ∷ rest) h = cc

unplaced :
    (source : ℕ) (url : Url) (docs : List Document)
    → select (is_at source url) docs ≡ []
    → All (λ x. is_at source url x ≡ false) docs
unfolding select
unplaced source url [] h = tt
unplaced source url (x ∷ xs) h = ground (arith, unplaced source url xs)

one_or_none-some : (xs : List Document) (d : Document) → one_or_none xs ≡ ok (some d) → Elem d xs
one_or_none-some [] d h = cc
one_or_none-some (x ∷ []) d h = inl (cc)
one_or_none-some (x ∷ y ∷ rest) d h = cc

Elem-last : (xs : List Document) {d x : Document} → x ≡ d → Elem x (xs ++ (d ∷ []))
Elem-last [] e = inl e
Elem-last (y ∷ xs) e = inr (Elem-last xs e)

module _ (w : Collector) (m : Moment) (q : Submission) where
  -- The new row of a submission to a source that has none for the URL.
  pub submit_new-Grown :
      (source : Source) (s : IngestionStore)
      → All (λ x. (x.id == m.document_id) ≡ false) s.documents
      → find_by_canonical_url source.id (normalize_url q.link) s ≡ ok none
      → (d : Document) × Grown s.documents d (submit_new w m q source s).0
        × (d.source_id ≡ source.id)
        × (d.canonical_url ≡ normalize_url q.link)
        × Ending d (submit_new w m q source s).1
  unfolding find_by_canonical_url insert_document
  submit_new-Grown source s fresh none_there =
      let d0 =
        new_document m.document_id source.id (normalize_url q.link) q.title q.external_id
          q.published_at in
      let (d, e, sorted, ends) =
        or_failed-Sorted w m s.documents d0 fresh
          (fetch_archive_parse w m d0 (insert_document d0 s))
          (fetch_archive_parse-Sorted w m s.documents d0 fresh d0 (insert_document d0 s)
            (record { last = refl; same_id = refl; same_source = refl; same_url = refl }) refl refl
            refl) in
      (
        d,
        record {
          last = e.last;
          fits = record {
            fresh = subst (λ k. All (λ x. (x.id == k) ≡ false) s.documents) (sym e.same_id) fresh;
            placed =
                rw (e.same_source, e.same_url)
                  (unplaced source.id (normalize_url q.link) s.documents
                    (one_or_none-none _ none_there));
            sorted = sorted;
          };
        },
        e.same_source,
        e.same_url,
        ends,
      )

  -- The documents are what they were, or one row more.
  abbrev pub Kept : IngestionStore → IngestionStore → Type 0
  Kept s s' = (s'.documents ≡ s.documents) ⊎ ((d : Document) × Grown s.documents d s')

  submit_found-Kept :
      (source : Source) (s0 s : IngestionStore) (found : Result (Option Document))
      → s.documents ≡ s0.documents
      → find_by_canonical_url source.id (normalize_url q.link) s ≡ found
      → All (λ x. (x.id == m.document_id) ≡ false) s0.documents
      → Kept s0 (submit_found w m q source found s).0
  submit_found-Kept source s0 s (err e) same f fresh = inl same
  submit_found-Kept source s0 s (ok (some d)) same f fresh = inl same
  submit_found-Kept source s0 s (ok none) same f fresh =
      let (d, g, a, b, ends) =
        submit_new-Grown source s
          (subst (All (λ x. (x.id == m.document_id) ≡ false)) (sym same) fresh) f in
      inr (d, subst (λ docs. Grown docs d (submit_new w m q source s).0) same g)

  resolve_source-documents :
      (i : Option ℕ) (u : Url) (s : IngestionStore)
      → (resolve_source m i u s).0.documents ≡ s.documents
  unfolding resolve_source insert_source insert_endpoint
  resolve_source-documents (some i) u s = refl
  resolve_source-documents none u s = refl

  submit_to-Kept :
      (s0 : IngestionStore) (p : IngestionStore × Result Source)
      → p.0.documents ≡ s0.documents
      → All (λ x. (x.id == m.document_id) ≡ false) s0.documents
      → Kept s0 (submit_to w m q p).0
  submit_to-Kept s0 (s, err e) same fresh = inl same
  submit_to-Kept s0 (s, ok source) same fresh =
      submit_found-Kept source s0 s (find_by_canonical_url source.id (normalize_url q.link) s) same
        refl fresh

  when_safe-Kept :
      (checked : Result (Unit {0})) (s : IngestionStore) (rest : IngestionStore × Result Document)
      → Kept s rest.0
      → Kept s (when_safe checked s rest).0
  when_safe-Kept (err e) s rest h = inl refl
  when_safe-Kept (ok u) s rest h = h

  pub submit_url-Kept :
      (s : IngestionStore)
      → All (λ x. (x.id == m.document_id) ≡ false) s.documents
      → Kept s (submit_url w m q s).0
  unfolding submit_url
  submit_url-Kept s fresh = when_safe-Kept _ s _ (
      submit_to-Kept s (resolve_source m q.source_id (normalize_url q.link) s)
        (resolve_source-documents q.source_id (normalize_url q.link) s) fresh)

  submit_new-Listed :
      (source : Source) (s : IngestionStore) (x : Document)
      → All (λ y. (y.id == m.document_id) ≡ false) s.documents
      → find_by_canonical_url source.id (normalize_url q.link) s ≡ ok none
      → (submit_new w m q source s).1 ≡ ok x
      → Elem x (submit_new w m q source s).0.documents
  submit_new-Listed source s x fresh f h =
      let (d, g, a, b, ends) = submit_new-Grown source s fresh f in rw g.last (listed d ends)
    where
      listed :
          (d : Document) → Ending d (submit_new w m q source s).1 → Elem x (s.documents ++ (d ∷ []))
      listed d (inl e) = Elem-last s.documents (ok_inj (sym h ∙ e))
      listed d (inr (e, k, _)) = cc

  submit_found-Listed :
      (source : Source) (s : IngestionStore) (found : Result (Option Document)) (x : Document)
      → find_by_canonical_url source.id (normalize_url q.link) s ≡ found
      → All (λ y. (y.id == m.document_id) ≡ false) s.documents
      → (submit_found w m q source found s).1 ≡ ok x
      → Elem x (submit_found w m q source found s).0.documents
  unfolding find_by_canonical_url
  submit_found-Listed source s (err e) x f fresh h = cc
  submit_found-Listed source s (ok (some d)) x f fresh h =
      subst (λ y. Elem y s.documents) (ok_inj h)
        (select_sound _ s.documents d (one_or_none-some _ d f)).0
  submit_found-Listed source s (ok none) x f fresh h = submit_new-Listed source s x fresh f h

  submit_to-Listed :
      (p : IngestionStore × Result Source) (x : Document)
      → All (λ y. (y.id == m.document_id) ≡ false) p.0.documents
      → (submit_to w m q p).1 ≡ ok x
      → Elem x (submit_to w m q p).0.documents
  submit_to-Listed (s, err e) x fresh h = cc
  submit_to-Listed (s, ok source) x fresh h = submit_found-Listed source s _ x refl fresh h

  when_safe-Listed :
      (checked : Result (Unit {0})) (s : IngestionStore) (rest : IngestionStore × Result Document)
      (x : Document)
      → (rest.1 ≡ ok x → Elem x rest.0.documents)
      → (when_safe checked s rest).1 ≡ ok x
      → Elem x (when_safe checked s rest).0.documents
  when_safe-Listed (err e) s rest x k h = cc
  when_safe-Listed (ok u) s rest x k h = k h

  -- What a submission returns is a row of the table that it leaves.
  pub submit_url-Listed :
      (s : IngestionStore) (x : Document)
      → All (λ y. (y.id == m.document_id) ≡ false) s.documents
      → (submit_url w m q s).1 ≡ ok x
      → Elem x (submit_url w m q s).0.documents
  unfolding submit_url
  submit_url-Listed s x fresh h =
      when_safe-Listed _ s _ x
        (submit_to-Listed (resolve_source m q.source_id (normalize_url q.link) s) x (
          subst (All (λ y. (y.id == m.document_id) ≡ false))
            (sym (resolve_source-documents q.source_id (normalize_url q.link) s)) fresh))
        h
