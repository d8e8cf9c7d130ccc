-- ===== src/Risk/Engine/Writes.antt =====
-- What a call of `calculate` does to the tables, and which earlier row it compares with.
use mathlib.Core.Bool.{and-true}
use mathlib.Core.List.{append-nil}
use middle_east_geopolitic.Common.Rows.Latest.{LatestOf, latest-select}
use mathlib.Core.Path.{fun_ext}
use middle_east_geopolitic.Common.{
  ◌∙◌, sym, ap, All, ℕ, ◌≤◌, ◌≡◌, refl, subst, Bool, true, false, Option, none, some, List, [], ◌∷◌,
  ◌++◌, arith, ◌⊎◌, inl, inr, not, ◌&&◌, leb, str_eq, Elem, if◌then◌else◌,
}
use middle_east_geopolitic.Common.Int.{ℤ, abs_diff}
use middle_east_geopolitic.Common.Float.{Float}
use middle_east_geopolitic.Common.Result.{Result, ok, err}
use middle_east_geopolitic.Risk.Models.{RiskAssessment, RiskStore}
use middle_east_geopolitic.Risk.Llm.{Settings}
use middle_east_geopolitic.Risk.Engine.{
  final_of, assess, finish, maybe_trigger_review, Request, build, calculate,
}
use middle_east_geopolitic.Risk.Engine.Steps.{assess-ok, calculate-ok}
use middle_east_geopolitic.Risk.Repository.{get_latest_assessment, create_assessment, assessed_for}
use middle_east_geopolitic.Common.Rows.{select, latest}

-- A move of at least the threshold from an earlier score, with a second model configured.
abbrev pub is_reviewed : {F : Type 0} → Settings → RiskAssessment F → Bool
is_reviewed cfg a = elim a.previous_score [
  | none ↦ false
  | some p ↦
      not (str_eq cfg.llm_secondary_model "")
      && leb cfg.score_delta_threshold (abs_diff a.final_score p)
]

module _ {F : Type 0} ⦃fl : Float F⦄ where
  -- What a call may have written, by its result: nothing where it failed or was not to persist; else
  -- the new row at the end of the assessments, and its id at the end of the scheduled reviews if a
  -- second model is configured and the score moved by the threshold or more.
  abbrev pub Written :
      Settings → Bool → RiskStore F → Result (RiskAssessment F) → RiskStore F → Type 0
  Written cfg persist s (err e) s' = s' ≡ s
  Written cfg false s (ok a) s' = s' ≡ s
  Written cfg true s (ok a) s' = s' ≡ record s {
    assessments = s.assessments ++ (a ∷ []);
    review_tasks = s.review_tasks ++ (if is_reviewed cfg a then a.id ∷ [] else []);
  }

  finish-Written :
      (cfg : Settings) (persist : Bool) (s : RiskStore F) (r : Result (RiskAssessment F))
      → Written cfg persist s (finish cfg persist s r).0 (finish cfg persist s r).1
  unfolding maybe_trigger_review create_assessment
  finish-Written cfg persist s (err e) = refl
  finish-Written cfg false s (ok a) = refl
  finish-Written cfg true s (ok a) = ground (arith, append-nil {0} s.review_tasks)

  -- The tables after `calculate` are those before it with exactly what `Written` allows.
  pub calculate-Written :
      (cfg : Settings) (now : ℕ) (q : Request F) (s : RiskStore F)
      → Written cfg q.persist s (calculate cfg now q s).0 (calculate cfg now q s).1
  unfolding calculate
  calculate-Written cfg now q s = finish-Written cfg q.persist s (assess cfg now s q)

  latest_same :
      (q : Request F) (s : RiskStore F)
      → get_latest_assessment q.risk_definition_id q.scope_type q.scope_id none s
        ≡ latest
            (λ a. a.assessed_at)
            (select (assessed_for q.risk_definition_id q.scope_type q.scope_id) s.assessments)
  unfolding get_latest_assessment
  latest_same q s =
      ap (λ (t : RiskAssessment F → Bool). latest (λ a. a.assessed_at) (select t s.assessments))
        (fun_ext λ a. and-true (assessed_for q.risk_definition_id q.scope_type q.scope_id a))

  abbrev pub PreviousFits : (RiskAssessment F → Bool) → List (RiskAssessment F) → Option ℤ → Type 0
  PreviousFits same rows previous =
      (previous ≡ none) × All (λ p. same p ≡ false) rows
      ⊎ ((l : RiskAssessment F) × Elem l rows
          × (same l ≡ true)
          × All (λ p. same p ≡ true → p.assessed_at ≤ l.assessed_at) rows
          × (previous ≡ some l.final_score))

  PreviousFits-of_LatestOf :
      (same : RiskAssessment F → Bool) (rows : List (RiskAssessment F))
      (l : Option (RiskAssessment F))
      → LatestOf (λ a. a.assessed_at) same rows l
      → PreviousFits same rows (final_of l)
  PreviousFits-of_LatestOf same rows none h = inl (refl, h)
  PreviousFits-of_LatestOf same rows (some l) h = inr (l, h.0, h.1, h.2, refl)

  -- The previous score is that of the latest assessment of the same risk and scope: none if the table
  -- has no such row, else that of a row that no other such row is later than.
  pub calculate-PreviousFits :
      (cfg : Settings) (now : ℕ) (q : Request F) (s : RiskStore F) (a : RiskAssessment F)
      → (calculate cfg now q s).0 ≡ ok a
      → PreviousFits
          (assessed_for q.risk_definition_id q.scope_type q.scope_id)
          s.assessments
          a.previous_score
  unfolding build
  calculate-PreviousFits cfg now q s a h =
      let (e, adj, p, r, eq) = assess-ok cfg now s q a (calculate-ok cfg now s q a h).0 in
      let same = assessed_for q.risk_definition_id q.scope_type q.scope_id in
      let fits =
        PreviousFits-of_LatestOf same s.assessments _
          (latest-select (λ (a : RiskAssessment F). a.assessed_at) same s.assessments) in
      subst (λ o. PreviousFits same s.assessments o)
        (ap final_of (sym (latest_same q s)) ∙ ap (λ (x : RiskAssessment F). x.previous_score) eq)
        fits
