-- ===== src/Ingestion/Sorted.antt =====
-- The stages of `_fetch_archive_parse`, each of which leaves the new row last in its table, marked as a
-- duplicate exactly where it shares content with an earlier row.
use middle_east_geopolitic.Ingestion.Entry.{
  hash-some, fingerprint-some, hash-none, fingerprint-none, save_document-Entered, same_content,
  Entered, IsSorted, shared,
}
use middle_east_geopolitic.Ingestion.Models.{IngestionStore, Document}
use middle_east_geopolitic.Common.{
  ◌∙◌, inr, inl, refl, sym, ◌+◌, Elem, some, subst, [], false, true, String, ◌∷◌, ◌==◌, All, ℕ,
  none, ◌≡◌, List, Option,
}
use middle_east_geopolitic.Ingestion.Service.{
  parse_text, text_of, extract_text, parser_version, words_in, after_hash, after_fetch,
  finish_parsed, saved, parse_result, archive_parse, or_failed, store_text, fetch_archive_parse,
  Progress, Moment, Collector, add_chunks,
}
use middle_east_geopolitic.Ingestion.Repository.{
  mark_failed, save_document, find_by_content_hash, find_by_fingerprint, mark_duplicate,
  mark_parsed, mark_fetched, add_chunk,
}
use middle_east_geopolitic.Common.Result.{err, ok, Result}
use middle_east_geopolitic.Collection.Fetcher.{fetch_url, FetchResult}
use middle_east_geopolitic.Ingestion.Dedup.{compute_fingerprint}
use middle_east_geopolitic.Collection.Chunks.{default_chunk_chars, chunk_text}
use middle_east_geopolitic.Ingestion.Contents.{
  same_hash, all_new, NewPrint, same_print, failed_IsSorted, no_print, Ending, NewHash, no_hash,
}

abbrev pub Sorted : List Document → Document → Progress → Type 0
Sorted docs d0 p = Entered docs d0 p.0 p.1 × IsSorted docs p.0 p.0.duplicate_of_document_id

add_chunks-documents :
    (count : String → ℕ) (i sequence : ℕ) (cs : List (List String)) (s : IngestionStore)
    → (add_chunks count i sequence cs s).documents ≡ s.documents
unfolding add_chunks add_chunk
add_chunks-documents count i sequence [] s = refl
add_chunks-documents count i sequence (c ∷ cs) s = add_chunks-documents count i (sequence + 1) cs (
    add_chunk
      (record { document_id = i; sequence = sequence; text = c; token_count = words_in count c }) s)

module _ (w : Collector) (m : Moment) (docs : List Document) (d0 : Document)
    (fresh : All (λ x. (x.id == d0.id) ≡ false) docs) where
  marked-Sorted :
      (d x : Document) (s : IngestionStore)
      → Entered docs d0 d s
      → Elem x docs
      → same_content x d ≡ true
      → Sorted docs d0 (saved (mark_duplicate x.id d) s)
  marked-Sorted d x s e k t = (
    save_document-Entered docs d0 fresh d (mark_duplicate x.id d) s e refl refl refl,
    (x, k, refl, t),
  )

  kept-Sorted :
      (d : Document) (s : IngestionStore) (r : Result (Unit {0}))
      → Entered docs d0 d s
      → d.duplicate_of_document_id ≡ none
      → NewHash docs d
      → NewPrint docs d
      → Sorted docs d0 (d, s, r)
  kept-Sorted d s r e n h k = (e, subst (IsSorted docs d) (sym n) (all_new docs d h k))

  finish_parsed-Sorted :
      (text : String) (found : Option Document) (d : Document) (s : IngestionStore)
      → Entered docs d0 d s
      → d.duplicate_of_document_id ≡ none
      → NewHash docs d
      → (found ≡ none → NewPrint docs d)
      → ((x : Document) → found ≡ some x → Elem x docs × (same_content x d ≡ true))
      → Sorted docs d0 (finish_parsed w text found d s)
  finish_parsed-Sorted text none d s e n h new old =
      let chunks = chunk_text w.size w.paragraphs default_chunk_chars text in
      kept-Sorted d (add_chunks w.word_count d.id 0 chunks s) (ok tt)
        (record {
          last = add_chunks-documents w.word_count d.id 0 chunks s ∙ e.last;
          same_id = e.same_id;
          same_source = e.same_source;
          same_url = e.same_url;
        })
        n h (new refl)
  finish_parsed-Sorted text (some x) d s e n h new old =
      let (k, t) = old x refl in marked-Sorted d x s e k t

  store_text-Sorted :
      (text : String) (d : Document) (s : IngestionStore)
      → Entered docs d0 d s
      → d.duplicate_of_document_id ≡ none
      → NewHash docs d
      → Sorted docs d0 (store_text w text d s)
  unfolding store_text
  store_text-Sorted text d s e n h =
      let print = compute_fingerprint w.lower w.hash_shingle (w.code_points text) in
      let row = mark_parsed text parser_version print d in
      finish_parsed-Sorted text (find_by_fingerprint print (some d.id) s) row (save_document row s)
        (save_document-Entered docs d0 fresh d row s e refl refl refl) n h
        (fingerprint-none docs d0 fresh print d s e)
        (λ x f.
          let (k, t) = fingerprint-some docs d0 fresh print d x s e f in (k, same_print x row t))

  parse_text-Sorted :
      (t : Option String) (d : Document) (s : IngestionStore)
      → Entered docs d0 d s
      → d.duplicate_of_document_id ≡ none
      → NewHash docs d
      → NewPrint docs d
      → Sorted docs d0 (parse_text w t d s)
  parse_text-Sorted none d s e n h k = kept-Sorted d s (ok tt) e n h k
  parse_text-Sorted (some text) d s e n h k = store_text-Sorted text d s e n h

  parse_result-Sorted :
      (r : Result (Option String)) (d : Document) (s : IngestionStore)
      → Entered docs d0 d s
      → d.duplicate_of_document_id ≡ none
      → NewHash docs d
      → NewPrint docs d
      → Sorted docs d0 (parse_result w r d s)
  parse_result-Sorted (err x) d s e n h k = kept-Sorted d s (err x) e n h k
  parse_result-Sorted (ok t) d s e n h k = parse_text-Sorted (text_of t) d s e n h k

  after_hash-Sorted :
      (found : Option Document) (d : Document) (s : IngestionStore) (body : List ℕ)
      → Entered docs d0 d s
      → d.duplicate_of_document_id ≡ none
      → d.content_fingerprint ≡ none
      → (found ≡ none → NewHash docs d)
      → ((x : Document)
          → found ≡ some x
          → Elem x docs × (shared x.content_hash d.content_hash ≡ true))
      → Sorted docs d0 (after_hash w body found d s)
  after_hash-Sorted none d s body e n k new old =
      parse_result-Sorted (extract_text w body d.canonical_url) d s e n (new refl)
        (no_print docs d k)
  after_hash-Sorted (some x) d s body e n k new old =
      let (l, t) = old x refl in marked-Sorted d x s e l (same_hash x d t)

  archive_parse-Sorted :
      (r : FetchResult) (d : Document) (s : IngestionStore)
      → Entered docs d0 d s
      → d.duplicate_of_document_id ≡ none
      → d.content_fingerprint ≡ none
      → Sorted docs d0 (archive_parse w m r d s)
  unfolding archive_parse
  archive_parse-Sorted r d s e n k =
      let digest = w.sha256 r.body in
      let row = mark_fetched m.object_key digest m.now d in
      let entered = save_document-Entered docs d0 fresh d row s e refl refl refl in
      after_hash-Sorted (find_by_content_hash digest (some d.id) (save_document row s)) row
        (save_document row s) r.body entered n k
        (hash-none docs d0 fresh digest row (save_document row s) entered)
        (λ x f. hash-some docs d0 fresh digest row x (save_document row s) entered f)

  pub fetch_archive_parse-Sorted :
      (d : Document) (s : IngestionStore)
      → Entered docs d0 d s
      → d.duplicate_of_document_id ≡ none
      → d.content_hash ≡ none
      → d.content_fingerprint ≡ none
      → Sorted docs d0 (fetch_archive_parse w m d s)
  unfolding fetch_archive_parse
  fetch_archive_parse-Sorted d s e n h k =
      fetched (fetch_url w.hosts w.resolve w.server d.canonical_url).0
    where
      fetched : (r : Result FetchResult) → Sorted docs d0 (after_fetch w m r d s)
      fetched (err x) = kept-Sorted d s (err x) e n (no_hash docs d h) (no_print docs d k)
      fetched (ok r) = archive_parse-Sorted r d s e n k

  -- The row that a new submission leaves, failed or not.
  pub or_failed-Sorted :
      (p : Progress)
      → Sorted docs d0 p
      → (d : Document) × Entered docs d0 d (or_failed p).0
        × IsSorted docs d d.duplicate_of_document_id
        × Ending d (or_failed p).1
  or_failed-Sorted (d, s, ok u) h = (d, h.0, h.1, inl refl)
  or_failed-Sorted (d, s, err x) h = (
    mark_failed d,
    save_document-Entered docs d0 fresh d (mark_failed d) s h.0 refl refl refl,
    failed_IsSorted docs d h.1,
    inr (x, refl, refl),
  )
