-- ===== src/Disagreement/Positions.antt =====
-- One position for an analyst and a subject, and no other analyst's is touched.
use middle_east_geopolitic.Common.{
  refl, inr, inl, Option-cases, ◌∙◌, [], ◌∷◌, ◌++◌, none, id_eq_refl, arith, id_eq-eq, true, false,
  some, ◌≡◌, Bool, id_eq, List, Option, ℕ,
}
use middle_east_geopolitic.Disagreement.{
  revised, new_position, is_position, AnalystAssessment, Position, upsert_position, PositionKey,
}
use middle_east_geopolitic.Common.Rows.{update, select, first?}
use middle_east_geopolitic.Common.Rows.Laws.{
  first?-update, select-update_other, select-append_other, first?-head, first?-append_none,
}

module _ {F : Type 0} where
  new_position-is_position :
      (fresh : ℕ) (k : PositionKey) (p : Position F) → is_position k (new_position fresh k p) ≡ true
  new_position-is_position fresh k p = ground (arith, id_eq_refl k.analyst_user_id)

  -- A row of one key is a row of no other analyst.
  is_position-other :
      (k : PositionKey) (other : Option ℕ) (a : AnalystAssessment F)
      → id_eq k.analyst_user_id other ≡ false
      → is_position k a ≡ true
      → id_eq a.analyst_user_id other ≡ false
  is_position-other k other a h t =
      let e : a.analyst_user_id ≡ k.analyst_user_id =
        id_eq-eq a.analyst_user_id k.analyst_user_id (ground arith) in
      rw e h

  -- The rows of another analyst.
  abbrev pub is_by : Option ℕ → AnalystAssessment F → Bool
  is_by analyst a = id_eq a.analyst_user_id analyst

  -- A position that is recorded is found under its key with what was said, and the rows of every other
  -- analyst, on all subjects, are what they were.
  pub upsert_position-keeps :
      (fresh : ℕ) (k : PositionKey) (p : Position F) (rows : List (AnalystAssessment F))
      → let (a, after) = upsert_position fresh k p rows in
        (first? (is_position k) after ≡ some a)
        × (revised p a ≡ a)
        × ((other : Option ℕ)
            → id_eq k.analyst_user_id other ≡ false
            → select (is_by other) after ≡ select (is_by other) rows)
  unfolding upsert_position
  upsert_position-keeps fresh k p rows = elim (Option-cases (first? (is_position k) rows)) [
    | inl e ↦ rw (e, upsert_position) (found_new e, refl, others_new)
    | inr (a, e) ↦
        rw (e, upsert_position)
          (first?-update (is_position k) (revised p) (λ b t. t) rows a e, refl, others_old)
  ]
    where
      found_new :
          first? (is_position k) rows ≡ none
          → first? (is_position k) (rows ++ (new_position fresh k p ∷ []))
            ≡ some (new_position fresh k p)
      found_new e =
          first?-append_none (is_position k) rows (new_position fresh k p ∷ []) e
          ∙ first?-head (is_position k) (new_position fresh k p) []
              (new_position-is_position fresh k p)

      others_new :
          (other : Option ℕ)
          → id_eq k.analyst_user_id other ≡ false
          → select (is_by other) (rows ++ (new_position fresh k p ∷ [])) ≡ select (is_by other) rows
      others_new other h = select-append_other (is_by other) rows (new_position fresh k p) h

      others_old :
          (other : Option ℕ)
          → id_eq k.analyst_user_id other ≡ false
          → select (is_by other) (update (is_position k) (revised p) rows)
            ≡ select (is_by other) rows
      others_old other h =
          select-update_other (is_by other) (is_position k) (revised p)
            (λ b t. (is_position-other k other b h t, is_position-other k other b h t)) rows
