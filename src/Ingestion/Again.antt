-- ===== src/Ingestion/Again.antt =====
-- A second call of `submit_url` of src/mei/application/services/source_ingestion.py for the same URL of the
-- same source.
use middle_east_geopolitic.Ingestion.Service.{
  in_request, submit_to, submit_found, when_safe, extract_text, words_in, text_of, after_fetch,
  normalize_url, parse_result, parse_text, after_hash, submit_new, finish_parsed, or_failed,
  Submission, Moment, Progress, archive_parse, fetch_archive_parse, store_text, resolve_source,
  add_chunks, Collector, submit_url,
}
use middle_east_geopolitic.Common.{
  ap, inr, inl, false, eq_iff, arith, ◌==◌, true, All, ◌++◌, [], ◌⊎◌, refl, none, ◌∙◌, ◌+◌, some,
  ◌∷◌, ◌≡◌, Option, String, List, ℕ,
}
use middle_east_geopolitic.Ingestion.Repository.{
  is_at, one_or_none, find_by_canonical_url, get_source, add_chunk, insert_document, save_document,
}
use middle_east_geopolitic.Collection.Fetcher.{fetch_url, validate_url_security, FetchResult, Url}
use middle_east_geopolitic.Ingestion.Models.{
  str?_eq, url_eq, DocumentStatus, IngestionStore, Document, Source,
}
use middle_east_geopolitic.Common.Result.{not_found, or_raise, err, ok, Error, Result}
use middle_east_geopolitic.Collection.Chunks.{default_chunk_chars, chunk_text}
use middle_east_geopolitic.Common.Rows.{select}
use middle_east_geopolitic.Common.Rows.First.{select-none_snoc}
use middle_east_geopolitic.Ingestion.Submit.{submit_new-Grown, one_or_none-none}
use middle_east_geopolitic.Ingestion.Contents.{Ending}

module _ (w : Collector) where
  add_chunks-sources :
      (i sequence : ℕ) (cs : List (List String)) (s : IngestionStore)
      → (add_chunks w.word_count i sequence cs s).sources ≡ s.sources
  unfolding add_chunks add_chunk
  add_chunks-sources i sequence [] s = refl
  add_chunks-sources i sequence (c ∷ cs) s = add_chunks-sources i (sequence + 1) cs (
      add_chunk
        (record {
          document_id = i;
          sequence = sequence;
          text = c;
          token_count = words_in w.word_count c;
        })
        s)

  finish_parsed-sources :
      (text : String) (found : Option Document) (d : Document) (s : IngestionStore)
      → (finish_parsed w text found d s).1.sources ≡ s.sources
  unfolding save_document
  finish_parsed-sources text none d s =
      add_chunks-sources d.id 0 (chunk_text w.size w.paragraphs default_chunk_chars text) s
  finish_parsed-sources text (some x) d s = refl

  parse_text-sources :
      (t : Option String) (d : Document) (s : IngestionStore)
      → (parse_text w t d s).1.sources ≡ s.sources
  unfolding store_text save_document
  parse_text-sources none d s = refl
  parse_text-sources (some text) d s = finish_parsed-sources text _ _ _

  after_hash-sources :
      (body : List ℕ) (found : Option Document) (d : Document) (s : IngestionStore)
      → (after_hash w body found d s).1.sources ≡ s.sources
  unfolding save_document
  after_hash-sources body (some x) d s = refl
  after_hash-sources body none d s = parsed_sources (extract_text w body d.canonical_url)
    where
      parsed_sources : (r : Result (Option String)) → (parse_result w r d s).1.sources ≡ s.sources
      parsed_sources (err e) = refl
      parsed_sources (ok t) = parse_text-sources (text_of t) d s

  after_fetch-sources :
      (m : Moment) (r : Result FetchResult) (d : Document) (s : IngestionStore)
      → (after_fetch w m r d s).1.sources ≡ s.sources
  unfolding archive_parse save_document
  after_fetch-sources m (err e) d s = refl
  after_fetch-sources m (ok r) d s = after_hash-sources r.body _ _ _

  or_failed-sources : (p : Progress) → (or_failed p).0.sources ≡ p.1.sources
  unfolding save_document
  or_failed-sources (d, s, ok u) = refl
  or_failed-sources (d, s, err e) = refl

  submit_new-sources :
      (m : Moment) (q : Submission) (source : Source) (s : IngestionStore)
      → (submit_new w m q source s).0.sources ≡ s.sources
  unfolding fetch_archive_parse insert_document
  submit_new-sources m q source s =
      or_failed-sources _ ∙ after_fetch-sources m (fetch_url w.hosts w.resolve w.server _).0 _ _

  -- Another request to submit the URL to the source.
  abbrev SamePlace : ℕ → Submission → Submission → Type 0
  SamePlace i q q' = (q'.source_id ≡ some i) × (normalize_url q'.link ≡ normalize_url q.link)

  -- How a call for the row ends: it returns the row, and a request commits it; or it raises, the row is
  -- marked as failed, and a request rolls it back.
  abbrev Ends : IngestionStore → Document → IngestionStore × Result Document → Type 0
  Ends s d r =
      ((r.1 ≡ ok d) × (in_request s r ≡ r))
      ⊎ ((e : Error) × (r.1 ≡ err e)
          × (d.status ≡ DocumentStatus.failed)
          × (in_request s r ≡ (s, err e)))

  -- The call is refused, and nothing is stored; or the tables that it leaves have a row for the URL, which
  -- from there on every call for the URL returns, with the tables as they are, where the URL is allowed.
  abbrev pub Settled : ℕ → Submission → IngestionStore → IngestionStore × Result Document → Type 0
  Settled i q s r =
      ((r.0 ≡ s) × ((e : Error) × (r.1 ≡ err e)))
      ⊎ ((d : Document) × Ends s d r
          × ((w' : Collector) (m' : Moment) (q' : Submission) (v : Unit {0})
              → SamePlace i q q'
              → validate_url_security w'.hosts w'.resolve (normalize_url q.link) ≡ ok v
              → submit_url w' m' q' r.0 ≡ (r.0, ok d)))

  ends_lem :
      (s : IngestionStore) (d : Document) (r : IngestionStore × Result Document)
      → Ending d r.1
      → Ends s d r
  ends_lem s d (t, ok x) (inl e) = inl (e, refl)
  ends_lem s d (t, err x) (inl e) = cc
  ends_lem s d (t, ok x) (inr (e, h, k)) = cc
  ends_lem s d (t, err x) (inr (e, h, k)) = inr (e, h, k, ap (λ y. (s, y)) h)

  -- The second call, where the source and the row are there.
  returns_stored :
      (w' : Collector) (i : ℕ) (u : Url) (source : Source) (d : Document) (s : IngestionStore)
      (m : Moment) (q : Submission)
      → q.source_id ≡ some i
      → normalize_url q.link ≡ u
      → (v : Unit {0}) → validate_url_security w'.hosts w'.resolve u ≡ ok v
      → get_source i s ≡ some source
      → find_by_canonical_url source.id u s ≡ ok (some d)
      → submit_url w' m q s ≡ (s, ok d)
  unfolding submit_url resolve_source
  returns_stored w' i u source d s m q a b v safe there found = rw (a, b, safe, there, found) refl

  host_refl : (h : Option String) → str?_eq h h ≡ true
  host_refl none = refl
  host_refl (some t) = (eq_iff t t).1 refl

  url_eq_refl : (u : Url) → url_eq u u ≡ true
  url_eq_refl u =
      ground (arith, eq_iff u.scheme u.scheme, eq_iff u.rest u.rest, host_refl u.hostname)

  -- The row that was added is the one that is found.
  found_last :
      (source : ℕ) (u : Url) (docs : List Document) (d : Document) (s : IngestionStore)
      → one_or_none (select (is_at source u) docs) ≡ ok none
      → s.documents ≡ docs ++ (d ∷ [])
      → d.source_id ≡ source
      → d.canonical_url ≡ u
      → find_by_canonical_url source u s ≡ ok (some d)
  unfolding find_by_canonical_url
  found_last source u docs d s none_there last a b =
      rw
        (
          last,
          select-none_snoc (is_at source u) docs d (one_or_none-none _ none_there)
              (rw (a, b) (ground (arith, url_eq_refl u))),
        )
        refl

  kept_source :
      (i : ℕ) (source : Source) (s after : IngestionStore)
      → after.sources ≡ s.sources
      → get_source i s ≡ some source
      → get_source i after ≡ some source
  unfolding get_source
  kept_source i source s after e h = rw e h

  found_row :
      (source : ℕ) (u : Url) (s : IngestionStore) (d : Document) (after : IngestionStore)
      → find_by_canonical_url source u s ≡ ok none
      → after.documents ≡ s.documents ++ (d ∷ [])
      → d.source_id ≡ source
      → d.canonical_url ≡ u
      → find_by_canonical_url source u after ≡ ok (some d)
  unfolding find_by_canonical_url
  found_row source u s d after f last a b = found_last source u s.documents d after f last a b

  submit_known :
      (i : ℕ) (m : Moment) (q : Submission) (source : Source) (s : IngestionStore)
      (found : Result (Option Document))
      → All (λ x. (x.id == m.document_id) ≡ false) s.documents
      → get_source i s ≡ some source
      → find_by_canonical_url source.id (normalize_url q.link) s ≡ found
      → Settled i q s (submit_found w m q source found s)
  submit_known i m q source s (err e) fresh there f = inl (refl, (e, refl))
  submit_known i m q source s (ok (some d)) fresh there f = inr (
    d,
    inl (refl, refl),
    (λ w' m' q' v p safe.
        returns_stored w' i (normalize_url q.link) source d s m' q' p.0 p.1 v safe there f),
  )
  submit_known i m q source s (ok none) fresh there f =
      let (d, g, a, b, ends) = submit_new-Grown w m q source s fresh f in
      let after = (submit_new w m q source s).0 in
      let known = kept_source i source s after (submit_new-sources m q source s) there in
      let last = found_row source.id (normalize_url q.link) s d after f g.last a b in
      inr (
        d,
        ends_lem s d (submit_new w m q source s) ends,
        (λ w' m' q' v p safe.
            returns_stored w' i (normalize_url q.link) source d after m' q' p.0 p.1 v safe known
              last),
      )

  refused :
      (i : ℕ) (m : Moment) (q : Submission) (s : IngestionStore)
      → All (λ x. (x.id == m.document_id) ≡ false) s.documents
      → (checked : Result (Unit {0}))
      → validate_url_security w.hosts w.resolve (normalize_url q.link) ≡ checked
      → (found : Option Source) → get_source i s ≡ found
      → Settled i q s (when_safe checked s (submit_to w m q (s, or_raise found not_found)))
  refused i m q s fresh (err e) safe found there = inl (refl, (e, refl))
  refused i m q s fresh (ok v) safe none there = inl (refl, (not_found, refl))
  refused i m q s fresh (ok v) safe (some source) there =
      submit_known i m q source s (find_by_canonical_url source.id (normalize_url q.link) s) fresh
        there refl

  -- A submission to a source, with a new id for its row, is refused with nothing stored, or leaves tables
  -- with a row for the URL. It returns the row, and a request commits it; or it raises with the row marked as
  -- failed, which a request rolls back and a job that goes on keeps. In the tables as the call leaves them,
  -- whatever the row's state, each submission of the URL to the source that the check of the URL lets
  -- through returns the row, and changes nothing.
  pub submit_url-again :
      (i : ℕ) (m : Moment) (q : Submission) (s : IngestionStore)
      → q.source_id ≡ some i
      → All (λ x. (x.id == m.document_id) ≡ false) s.documents
      → Settled i q s (submit_url w m q s)
  unfolding submit_url resolve_source
  submit_url-again i m q s e fresh = rw e (
      refused i m q s fresh (validate_url_security w.hosts w.resolve (normalize_url q.link)) refl
        (get_source i s) refl)
