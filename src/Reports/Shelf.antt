-- ===== src/Reports/Shelf.antt =====
-- What the reports of src/mei/application/services/report_generator.py have to be, and tables of reports
-- without a repeated id.
use middle_east_geopolitic.Reports.Models.{published_report, is_approved, ReportStatus, Report}
use middle_east_geopolitic.Reports.Cited.{Cites}
use middle_east_geopolitic.Common.{
  refl, sym, subst, if◌then◌else◌, All-impl, Bool, inr, arith, All-append, inl, Bool-cases, ◌++◌,
  true, [], false, none, ◌≡◌, ◌==◌, All, ℕ, some, ◌∷◌, Option, List,
}
use middle_east_geopolitic.Common.Rows.{first?, update}
use middle_east_geopolitic.Common.Rows.Laws.{All-update}

abbrev IsThere : {A : Type 0} → Option A → Type 0
IsThere none = ⊥
IsThere (some a) = Unit

module _ {F : Type 0} where
  -- Approved and published reports name who approved them and when, and published ones also when they were
  -- published.
  abbrev IsVetted : Report F → ReportStatus → Type 0
  IsVetted r ReportStatus.generated = Unit
  IsVetted r ReportStatus.approved = IsThere r.approved_by × IsThere r.approved_at
  IsVetted r ReportStatus.published =
      IsThere r.approved_by × IsThere r.approved_at × IsThere r.published_at
  IsVetted r ReportStatus.rejected = Unit

  abbrev pub IsSound : Report F → Type 0
  IsSound r = Cites r.content × IsVetted r r.status

  abbrev pub Distinct : List (Report F) → Type 0
  Distinct [] = Unit
  Distinct (x ∷ xs) = All (λ y. (y.id == x.id) ≡ false) xs × Distinct xs

  -- `own` says which reports are written by the generator alone.
  abbrev pub IsSoundOwn : (ℕ → Bool) → Report F → Type 0
  IsSoundOwn own r = own r.id ≡ true → IsSound r

  pub record IsShelf (own : ℕ → Bool) (rs : List (Report F)) : Type 0 where
    pub sound : All (IsSoundOwn own) rs
    pub distinct : Distinct rs

  pub Distinct-update :
      (i : ℕ) (f : Report F → Report F)
      → ((r : Report F) → (f r).id ≡ r.id)
      → (rs : List (Report F)) → Distinct rs
      → Distinct (update (λ x. x.id == i) f rs)
  unfolding update
  Distinct-update i f keep [] h = tt
  Distinct-update i f keep (x ∷ xs) h = (
    subst (λ k. All (λ y. (y.id == k) ≡ false) (update (λ y. y.id == i) f xs))
        (sym (same_id (x.id == i)))
        (All-update (λ y. (y.id == x.id) ≡ false) (λ y. y.id == i) f
          (λ y _ p. ground (arith, keep y)) xs h.0),
    Distinct-update i f keep xs h.1,
  )
    where
      same_id : (b : Bool) → (if b then f x else x).id ≡ x.id
      same_id true = keep x
      same_id false = refl

  pub Distinct-snoc :
      (rs : List (Report F)) (r : Report F)
      → Distinct rs
      → All (λ x. (x.id == r.id) ≡ false) rs
      → Distinct (rs ++ (r ∷ []))
  Distinct-snoc [] r h k = (tt, tt)
  Distinct-snoc (x ∷ xs) r h k =
      (All-append _ xs (r ∷ []) h.0 (ground (arith, k.0), tt), Distinct-snoc xs r h.1 k.1)

  -- The row that a query by id returns is the only one with the id.
  pub only_row :
      (i : ℕ) (rs : List (Report F)) (r : Report F)
      → Distinct rs
      → first? (λ x. x.id == i) rs ≡ some r
      → All (λ x. (x.id == i) ≡ true → x ≡ r) rs
  unfolding first?
  only_row i [] r h e = tt
  only_row i (x ∷ xs) r h e = elim (Bool-cases (x.id == i)) [
    | inl t ↦ (
      (λ _. cc (rw t at e)),
      All-impl (λ y. (y.id == x.id) ≡ false) _ (λ y p k. absurd (ground (arith, t, p, k))) xs h.0,
    )
    | inr t ↦ ((λ k. cc), only_row i xs r h.1 (rw t at e))
  ]

  pub published_lem :
      (now : ℕ) (r : Report F)
      → is_approved r.status ≡ true
      → IsSound r
      → IsSound (published_report now r)
  published_lem now r a k = (k.0, vetted r.status a k.1)
    where
      vetted :
          (status : ReportStatus)
          → is_approved status ≡ true
          → IsVetted r status
          → IsThere r.approved_by × IsThere r.approved_at × Unit {0}
      vetted ReportStatus.approved e v = (v.0, v.1, tt)
      vetted ReportStatus.generated e v = cc
      vetted ReportStatus.published e v = cc
      vetted ReportStatus.rejected e v = cc
