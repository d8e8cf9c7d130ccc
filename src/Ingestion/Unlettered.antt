-- ===== src/Ingestion/Unlettered.antt =====
-- Texts without an ASCII letter or digit, in src/mei/infrastructure/collection/dedup.py and in the fourth
-- stage of source_ingestion.py.
use middle_east_geopolitic.Ingestion.Dedup.{
  shingles, normalize_tokens, is_token_char, find_tokens, compute_fingerprint, Text,
}
use middle_east_geopolitic.Ingestion.Repository.{
  fingerprint_matches, save_document, find_by_fingerprint,
}
use middle_east_geopolitic.Ingestion.Service.{Collector, store_text}
use middle_east_geopolitic.Ingestion.Models.{IngestionStore, Document}
use middle_east_geopolitic.Common.{
  inr, arith, true, inl, Option-cases, String, ℕ, ◌==◌, refl, some, false, Elem, ◌∷◌, ◌≡◌, [], All,
}
use middle_east_geopolitic.Common.Rows.First.{earliest-none}
use middle_east_geopolitic.Common.Rows.Laws.{All-Elem}

-- `_TOKEN_RE` matches nowhere: a text in Arabic, Persian or Hebrew letters alone.
abbrev pub IsUnlettered : Text → Type 0
IsUnlettered = All (λ c. is_token_char c ≡ false)

find_tokens-nil : (text : Text) → IsUnlettered text → find_tokens [] text ≡ []
unfolding find_tokens
find_tokens-nil [] h = refl
find_tokens-nil (c ∷ cs) h = rw (h.0, find_tokens) (find_tokens-nil cs h.1)

compute_fingerprint-unlettered :
    (lower : Text → Text) (hash : Text → ℕ) (text : Text)
    → IsUnlettered (lower text)
    → compute_fingerprint lower hash text ≡ 0
unfolding compute_fingerprint normalize_tokens shingles
compute_fingerprint-unlettered lower hash text h = rw (find_tokens-nil (lower text) h) refl

print_test :
    (d x : Document)
    → x.content_fingerprint ≡ some 0
    → (x.id == d.id) ≡ false
    → fingerprint_matches 0 (some d.id) x ≡ true
print_test d x p q = ground arith

found_one :
    (d x : Document) (s : IngestionStore)
    → Elem x s.documents
    → x.content_fingerprint ≡ some 0
    → (x.id == d.id) ≡ false
    → (y : Document) × (find_by_fingerprint 0 (some d.id) s ≡ some y)
unfolding find_by_fingerprint
found_one d x s m p q = elim (Option-cases (find_by_fingerprint 0 (some d.id) s)) [
  | inl none_found ↦
      let all =
        earliest-none (λ y. y.id) (fingerprint_matches 0 (some d.id)) s.documents none_found in
      let t = All-Elem (λ y. fingerprint_matches 0 (some d.id) y ≡ false) s.documents x all m in
      absurd (cc (t, print_test d x p q))
  | inr (y, e) ↦ (y, e)
]

-- A parsed text without an ASCII letter or digit makes its document a duplicate, without chunks, as soon as
-- the table has another document with such a text (whose fingerprint is 0), whatever the two texts say.
pub store_text-unlettered :
    (w : Collector) (text : String) (d x : Document) (s : IngestionStore)
    → IsUnlettered (w.lower (w.code_points text))
    → Elem x s.documents
    → x.content_fingerprint ≡ some 0
    → (x.id == d.id) ≡ false
    → (y : Document) × ((store_text w text d s).0.duplicate_of_document_id ≡ some y.id)
      × ((store_text w text d s).1.chunks ≡ s.chunks)
unfolding store_text save_document
store_text-unlettered w text d x s h m p q =
    let (y, e) = found_one d x s m p q in
    let zero_print = compute_fingerprint-unlettered w.lower w.hash_shingle (w.code_points text) h in
    rw zero_print (rw e (y, refl, refl))
