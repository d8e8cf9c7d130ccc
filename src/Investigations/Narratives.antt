-- ===== src/Investigations/Narratives.antt =====
-- The searches and the comparison of narratives of src/mei/application/services/investigations.py. `ilike`
-- says whether a text contains a keyword, as the database compares them; `round_2` is `round(x, 2)`.
use middle_east_geopolitic.Common.{
  Bool, List, Option, String, [], ◌∷◌, ◌||◌, false, none, some, ◌==◌, ◌+◌, ℕ, take, length,
  if◌then◌else◌,
}
use middle_east_geopolitic.Common.Float.{Float}
use middle_east_geopolitic.Common.Rows.{select}
use middle_east_geopolitic.Casework.Models.{Event, Claim, ClaimEvidence, EvidenceStance, CaseStore}
use middle_east_geopolitic.Casework.Repository.{list_evidence}
use middle_east_geopolitic.Casework.Extraction.Clusters.{has_id}
use middle_east_geopolitic.Ingestion.Models.{Document}
use middle_east_geopolitic.Investigations.Models.{
  Comparison, Summary, no_claims, disputed, undisputed,
}

-- `or_(*[column.ilike(f"%{kw}%") for kw in keywords])`, where NULL matches nothing
abbrev pub matches : (String → String → Bool) → List String → String → Bool
matches ilike [] text = false
matches ilike (k ∷ ks) text = ilike k text || matches ilike ks text

abbrev pub matches_some : (String → String → Bool) → List String → Option String → Bool
matches_some ilike keywords none = false
matches_some ilike keywords (some text) = matches ilike keywords text

-- `Claim.event_id.in_(event_ids)`
abbrev pub of_events : Option ℕ → List ℕ → Bool
of_events none ids = false
of_events (some i) ids = has_id i ids

abbrev pub contradiction : EvidenceStance → ℕ
contradiction EvidenceStance.contradicts = 1
contradiction _ = 0

abbrev pub support : EvidenceStance → ℕ
support EvidenceStance.supports = 1
support _ = 0

-- `_search_sources`, its first and its second half. Without keywords nothing matches.
unfoldable pub search_documents :
    (String → String → Bool) → List String → List Document → List Document
search_documents ilike keywords ds = take 20 (
    select
      (λ d. matches_some ilike keywords d.title || matches_some ilike keywords d.extracted_text) ds)

abbrev summary_of : ℕ → ℕ → Summary
summary_of claims contradicting =
    if claims == 0
    then no_claims
    else if contradicting == 0
    then undisputed claims
    else disputed claims contradicting

module _ {F : Type 0} where
  unfoldable pub search_events :
      (String → String → Bool) → List String → CaseStore F → List (Event F)
  search_events ilike keywords s = take 20 (
      select
        (λ (e : Event F). matches ilike keywords e.title || matches_some ilike keywords e.summary)
        s.events)

  -- `_search_claims`
  unfoldable pub search_claims :
      (String → String → Bool) → List String → List ℕ → CaseStore F → List (Claim F)
  search_claims ilike keywords event_ids s = take 30 (
      select
        (λ (c : Claim F). matches ilike keywords c.claim_text || of_events c.event_id event_ids)
        s.claims)

  abbrev pub add_some : Option F → List F → List F
  add_some none xs = xs
  add_some (some x) xs = x ∷ xs

  -- The three tallies of the loop of `_compare_narratives`.
  abbrev pub confidences_of : List (Claim F) → List F
  confidences_of [] = []
  confidences_of (c ∷ cs) = add_some c.confidence (confidences_of cs)

  unfoldable pub tally : (EvidenceStance → ℕ) → List (ClaimEvidence F) → ℕ
  tally weigh [] = 0
  tally weigh (e ∷ es) = weigh e.stance + tally weigh es

  unfoldable pub tally_claims : (EvidenceStance → ℕ) → List (Claim F) → CaseStore F → ℕ
  tally_claims weigh [] s = 0
  tally_claims weigh (c ∷ cs) s = tally weigh (list_evidence c.id s) + tally_claims weigh cs s

module _ {F : Type 0} ⦃fl : Float F⦄ where
  -- The mean of the confidences that are given; without any, 0.3 if there is a claim.
  abbrev confidence_of : (F → F) → ℕ → List F → F
  confidence_of round_2 claims [] =
      if claims == 0 then fl.of_ℕ 0 else fl.div (fl.of_ℕ 3) (fl.of_ℕ 10)
  confidence_of round_2 claims (x ∷ xs) =
      round_2 (fl.div (fl.sum (x ∷ xs)) (fl.of_ℕ (length (x ∷ xs))))

  abbrev divergence : (F → F) → ℕ → ℕ → F
  divergence round_2 supporting contradicting =
      if supporting + contradicting == 0
      then fl.of_ℕ 0
      else round_2 (fl.div (fl.of_ℕ contradicting) (fl.of_ℕ (supporting + contradicting)))

  unfoldable pub score_narrative_comparison : (F → F) → ℕ → ℕ → ℕ → List F → Comparison F
  score_narrative_comparison round_2 claims supporting contradicting confidences = record {
    comparison_summary = summary_of claims contradicting;
    divergence_score = divergence round_2 supporting contradicting;
    confidence = confidence_of round_2 claims confidences;
    supporting_evidence_count = supporting;
    contradicting_evidence_count = contradicting;
  }

  -- `_compare_narratives`
  unfoldable pub compare_narratives : (F → F) → List (Claim F) → CaseStore F → Comparison F
  compare_narratives round_2 claims s =
      score_narrative_comparison round_2 (length claims) (tally_claims support claims s)
        (tally_claims contradiction claims s) (confidences_of claims)
