-- ===== src/Scenarios/Consistency/Gaps.antt =====
-- What the check of the scenario families reports, said without the loop.
use middle_east_geopolitic.Common.Float.{Float}
use middle_east_geopolitic.Scenarios.Consistency.{
  family_severity_order, warn_pairs, check_family_consistency, present, Ranges,
}
use middle_east_geopolitic.Scenarios.Models.{
  controlled_deescalation, managed_confrontation, systemic_regional_war, regional_escalation,
  severity, ScenarioFamily,
}
use middle_east_geopolitic.Common.{
  ◌∙◌, inr, inl, if_both, ltb, ◌++◌, [], Option-cases, refl, true, none, ◌∷◌, some, ◌≡◌, Elem, List,
}

module _ {F : Type 0} ⦃fl : Float F⦄ where
  -- Two families that the dict has, one more severe than the other and none between them, where the
  -- more severe one is at least likelier than the other one can be.
  pub record Gap (d : Ranges F) (f g : ScenarioFamily) : Type 0 where
    pub less : F × F
    pub more : F × F
    pub less_there : d f ≡ some less
    pub more_there : d g ≡ some more
    pub ordered : ltb (severity f) (severity g) ≡ true
    pub none_between :
        (h : ScenarioFamily)
        → ltb (severity f) (severity h) ≡ true
        → ltb (severity h) (severity g) ≡ true
        → d h ≡ none
    pub exceeds : fl.lt less.1 more.0 ≡ true

  -- The list without its head, for `present`.
  present-none :
      (d : Ranges F) (f : ScenarioFamily) (fs : List ScenarioFamily)
      → d f ≡ none
      → present d (f ∷ fs) ≡ present d fs
  unfolding present
  present-none d f fs e = rw (e, present) refl

  present-some :
      (d : Ranges F) (f : ScenarioFamily) (fs : List ScenarioFamily) (r : F × F)
      → d f ≡ some r
      → present d (f ∷ fs) ≡ (f, r) ∷ present d fs
  unfolding present
  present-some d f fs r e = rw (e, present) refl

  Warned : ScenarioFamily → ScenarioFamily → List (ScenarioFamily × (F × F)) → Type 0
  Warned f g xs = Elem (f, g) (warn_pairs xs)

  -- A warning of the rest is a warning of the whole.
  Warned-later :
      (f g : ScenarioFamily) (x : ScenarioFamily × (F × F)) (xs : List (ScenarioFamily × (F × F)))
      → Warned f g xs
      → Warned f g (x ∷ xs)
  unfolding Warned warn_pairs
  Warned-later f g x [] w = w
  Warned-later f g (h, r) ((k, q) ∷ xs) w =
      if_both (λ (ys : List (ScenarioFamily × ScenarioFamily)). Elem (f, g) ys) (fl.lt r.1 q.0) _ _
        (inr w) w

  Warned-first :
      (f g : ScenarioFamily) (r q : F × F) (xs : List (ScenarioFamily × (F × F)))
      → fl.lt r.1 q.0 ≡ true
      → Warned f g ((f, r) ∷ (g, q) ∷ xs)
  unfolding Warned warn_pairs
  Warned-first f g r q xs e = rw e (inl refl)

  skip :
      (f g h : ScenarioFamily) (d : Ranges F) (fs : List ScenarioFamily)
      → Warned f g (present d fs)
      → Warned f g (present d (h ∷ fs))
  skip f g h d fs w = elim (Option-cases (d h)) [
    | inl e ↦ rw (present-none d h fs e) w
    | inr (r, e) ↦ rw (present-some d h fs r e) (Warned-later f g (h, r) (present d fs) w)
  ]

  -- The families of the list before `g` are not in the dict.
  abbrev NoneBefore : Ranges F → ScenarioFamily → List ScenarioFamily → Type 0
  NoneBefore d g [] = Unit
  NoneBefore d g (h ∷ hs) = (d h ≡ none) × NoneBefore d g hs

  Warned-at :
      (f g : ScenarioFamily) (d : Ranges F) (between rest : List ScenarioFamily) (r q : F × F)
      → d f ≡ some r
      → d g ≡ some q
      → fl.lt r.1 q.0 ≡ true
      → NoneBefore d g between
      → Warned f g (present d (f ∷ (between ++ (g ∷ rest))))
  Warned-at f g d between rest r q a b e n =
      rw (present-some d f (between ++ (g ∷ rest)) r a, jump between n, present-some d g rest q b)
        (Warned-first f g r q (present d rest) e)
    where
      jump :
          (hs : List ScenarioFamily)
          → NoneBefore d g hs
          → present d (hs ++ (g ∷ rest)) ≡ present d (g ∷ rest)
      jump [] n = refl
      jump (h ∷ hs) n = present-none d h (hs ++ (g ∷ rest)) n.0 ∙ jump hs n.1

  -- Each gap in the dict, where the floor of the more severe family exceeds the ceiling of the next
  -- less severe one, has its warning.
  pub check_family_consistency_complete :
      (d : Ranges F) (f g : ScenarioFamily) → Gap d f g → Elem (f, g) (check_family_consistency d)
  unfolding check_family_consistency Warned
  check_family_consistency_complete d f g p = go f g p
    where
      go : (f g : ScenarioFamily) → Gap d f g → Warned f g (present d family_severity_order)
      go controlled_deescalation managed_confrontation p =
          Warned-at _ _ d [] (regional_escalation ∷ systemic_regional_war ∷ []) p.less p.more
            p.less_there p.more_there p.exceeds tt
      go controlled_deescalation regional_escalation p =
          Warned-at _ _ d (managed_confrontation ∷ []) (systemic_regional_war ∷ []) p.less p.more
            p.less_there p.more_there p.exceeds (p.none_between managed_confrontation refl refl, tt)
      go controlled_deescalation systemic_regional_war p =
          Warned-at _ _ d (managed_confrontation ∷ regional_escalation ∷ []) [] p.less p.more
            p.less_there p.more_there p.exceeds
            (
              p.none_between managed_confrontation refl refl,
              (p.none_between regional_escalation refl refl, tt),
            )
      go managed_confrontation regional_escalation p = skip _ _ controlled_deescalation d _ (
          Warned-at _ _ d [] (systemic_regional_war ∷ []) p.less p.more p.less_there p.more_there
            p.exceeds tt)
      go managed_confrontation systemic_regional_war p = skip _ _ controlled_deescalation d _ (
          Warned-at _ _ d (regional_escalation ∷ []) [] p.less p.more p.less_there p.more_there
            p.exceeds (p.none_between regional_escalation refl refl, tt))
      go regional_escalation systemic_regional_war p = skip _ _ controlled_deescalation d _ (
          skip _ _ managed_confrontation d _
            (Warned-at _ _ d [] [] p.less p.more p.less_there p.more_there p.exceeds tt))
      go systemic_regional_war controlled_deescalation p = cc (p.ordered)
      go systemic_regional_war managed_confrontation p = cc (p.ordered)
      go systemic_regional_war regional_escalation p = cc (p.ordered)
      go systemic_regional_war systemic_regional_war p = cc (p.ordered)
      go _ _ p = cc (p.ordered)
