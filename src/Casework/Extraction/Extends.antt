-- ===== src/Casework/Extraction/Extends.antt =====
-- How src/mei/application/services/extraction.py may change the tables: rows are added, none is lost, and
-- the queue of reviews of high impact is left alone.
use mathlib.Core.List.{append_assoc, append-nil}
use middle_east_geopolitic.Casework.Models.{
  Claim, high_impact_event, supports, review_type_eq, ClaimEvidence, CaseStore, LifecycleStatus,
  ReviewItem, Event,
}
use middle_east_geopolitic.Common.{
  String, ap, ◌∷◌, length-append, refl, All-append, arith, sym, [], ◌∙◌, All, ◌++◌, length, ◌+◌,
  List, Bool, ℕ, ◌≡◌,
}
use middle_east_geopolitic.Common.Rows.{select}
use middle_east_geopolitic.Casework.Repository.{insert_evidence, insert_claim}
use middle_east_geopolitic.Casework.Extraction.Columns.{StoreFits}

abbrev pub is_high_item : ReviewItem → Bool
is_high_item r = review_type_eq r.review_type high_impact_event

module _ {F : Type 0} where
  abbrev pub IsExtracted : Event F → Type 0
  IsExtracted e = e.lifecycle_status ≡ LifecycleStatus.extracted

  abbrev pub Supports : ℕ → ClaimEvidence F → Type 0
  Supports document v = (v.document_id ≡ document) × (v.stance ≡ supports)

  -- The tables `t` have the rows of `s`, some extracted events more, and `k` claims more with a supporting
  -- passage of the document each.
  pub record Extends (fits : ℕ → String → Bool) (document k : ℕ) (s t : CaseStore F) : Type 0 where
    pub new_events : List (Event F)
    pub events_lem : t.events ≡ s.events ++ new_events
    pub extracted_lem : All IsExtracted new_events
    pub passages : List (ClaimEvidence F)
    pub evidence_lem : t.evidence ≡ s.evidence ++ passages
    pub supports_lem : All (Supports document) passages
    pub passages_lem : length passages ≡ k
    pub claims_lem : length t.claims ≡ length s.claims + k
    pub high_impact_lem : select is_high_item t.reviews ≡ select is_high_item s.reviews
    pub fits_lem : StoreFits fits s → StoreFits fits t

  pub Extends-trans :
      (fits : ℕ → String → Bool) (document k l : ℕ) (s t u : CaseStore F)
      → Extends fits document k s t
      → Extends fits document l t u
      → Extends fits document (k + l) s u
  Extends-trans fits document k l s t u a b = record {
    new_events = a.new_events ++ b.new_events;
    events_lem = b.events_lem ∙ rw (a.events_lem) (append_assoc s.events a.new_events b.new_events);
    extracted_lem =
        All-append IsExtracted a.new_events b.new_events a.extracted_lem b.extracted_lem;
    passages = a.passages ++ b.passages;
    evidence_lem =
        b.evidence_lem ∙ rw (a.evidence_lem) (append_assoc s.evidence a.passages b.passages);
    supports_lem =
        All-append (Supports document) a.passages b.passages a.supports_lem b.supports_lem;
    passages_lem =
        omega (arith, length-append a.passages b.passages, a.passages_lem, b.passages_lem);
    claims_lem = omega (arith, a.claims_lem, b.claims_lem);
    high_impact_lem = b.high_impact_lem ∙ a.high_impact_lem;
    fits_lem = λ h. b.fits_lem (a.fits_lem h);
  }

  -- A change of links, of the actors of claims, and of other reviews.
  pub Extends-still :
      (fits : ℕ → String → Bool) (document : ℕ) (s t : CaseStore F)
      → t.events ≡ s.events
      → t.evidence ≡ s.evidence
      → length t.claims ≡ length s.claims
      → select is_high_item t.reviews ≡ select is_high_item s.reviews
      → (StoreFits fits s → StoreFits fits t)
      → Extends fits document 0 s t
  Extends-still fits document s t a b c d f = record {
    new_events = [];
    events_lem = a ∙ sym (append-nil s.events);
    extracted_lem = tt;
    passages = [];
    evidence_lem = b ∙ sym (append-nil s.evidence);
    supports_lem = tt;
    passages_lem = refl;
    claims_lem = omega (arith, c);
    high_impact_lem = d;
    fits_lem = f;
  }

  -- An extracted event more.
  pub Extends-event :
      (fits : ℕ → String → Bool) (document : ℕ) (e : Event F) (s t : CaseStore F)
      → t.events ≡ s.events ++ (e ∷ [])
      → IsExtracted e
      → t.evidence ≡ s.evidence
      → t.claims ≡ s.claims
      → select is_high_item t.reviews ≡ select is_high_item s.reviews
      → (StoreFits fits s → StoreFits fits t)
      → Extends fits document 0 s t
  Extends-event fits document e s t a x b c d f = record {
    new_events = e ∷ [];
    events_lem = a;
    extracted_lem = (x, tt);
    passages = [];
    evidence_lem = b ∙ sym (append-nil s.evidence);
    supports_lem = tt;
    passages_lem = refl;
    claims_lem = omega (arith, ap length c);
    high_impact_lem = d;
    fits_lem = f;
  }

  -- A claim is stored first and its passage last.
  pub Extends-claim :
      (fits : ℕ → String → Bool) (document : ℕ) (row : Claim F) (v : ClaimEvidence F)
      (s r : CaseStore F)
      → Supports document v
      → (StoreFits fits s → StoreFits fits (insert_claim row s))
      → (StoreFits fits r → StoreFits fits (insert_evidence v r))
      → Extends fits document 0 (insert_claim row s) r
      → Extends fits document 1 s (insert_evidence v r)
  unfolding insert_claim insert_evidence
  Extends-claim fits document row v s r x f g a = record {
    new_events = a.new_events;
    events_lem = a.events_lem;
    extracted_lem = a.extracted_lem;
    passages = a.passages ++ (v ∷ []);
    evidence_lem = rw (a.evidence_lem) (append_assoc s.evidence a.passages (v ∷ []));
    supports_lem = All-append (Supports document) a.passages (v ∷ []) a.supports_lem (x, tt);
    passages_lem = omega (arith, length-append a.passages (v ∷ []), a.passages_lem);
    claims_lem = omega (arith, a.claims_lem, length-append s.claims (row ∷ []));
    high_impact_lem = a.high_impact_lem;
    fits_lem = λ h. g (a.fits_lem (f h));
  }
