-- ===== src/Disagreement/Stances.antt =====
-- When positions count as agreeing.
use middle_east_geopolitic.Disagreement.{
  is_spread, spread, available, differs_from, classify_disagreement, distinct_stances,
}
use middle_east_geopolitic.Common.{
  ◌<◌, ◌≤◌, refl, All, length, Bool-cases, ◌⊎◌, none, [], sym, ◌∙◌, inr, arith, inl, ◌∷◌, some,
  eq_iff, Elem, false, true, ◌≡◌, Option, str_eq, List, String,
}
use middle_east_geopolitic.Common.Float.{lt_asymm, ≼_trans, fmax, fmin, ◌≼◌, IsOrdered, Float}

str_eq-eq : (a b : String) → str_eq a b ≡ true → a ≡ b
str_eq-eq a b h = (eq_iff a b).0 h

differs_from-same :
    (t : String) (xs : List (Option String)) (u : String)
    → differs_from t xs ≡ false
    → Elem (some u) xs
    → u ≡ t
unfolding differs_from
differs_from-same t [] u h m = elim m [ ]
differs_from-same t (none ∷ xs) u h (inl e) = cc
differs_from-same t (none ∷ xs) u h (inr m) = differs_from-same t xs u h m
differs_from-same t (some v ∷ xs) u h (inl e) =
    let p : str_eq v t ≡ true = ground arith in let q : u ≡ v = cc in q ∙ str_eq-eq v t p
differs_from-same t (some v ∷ xs) u h (inr m) = differs_from-same t xs u (ground arith) m

past : {A : Type 0} → (a x : A) (xs : List A) (m : A) → Elem m (a ∷ xs) → Elem m (a ∷ x ∷ xs)
past a x xs m (inl e) = inl e
past a x xs m (inr i) = inr (inr i)

distinct_stances-same :
    (xs : List (Option String)) (a b : String)
    → distinct_stances xs ≡ false
    → Elem (some a) xs
    → Elem (some b) xs
    → a ≡ b
unfolding distinct_stances
distinct_stances-same [] a b h m n = elim m [ ]
distinct_stances-same (none ∷ xs) a b h (inl e) n = cc
distinct_stances-same (none ∷ xs) a b h (inr m) (inl e) = cc
distinct_stances-same (none ∷ xs) a b h (inr m) (inr n) = distinct_stances-same xs a b h m n
distinct_stances-same (some t ∷ xs) a b h (inl d) (inl e) = cc
distinct_stances-same (some t ∷ xs) a b h (inl d) (inr n) =
    let p = differs_from-same t xs b h n in let q : a ≡ t = cc in q ∙ sym p
distinct_stances-same (some t ∷ xs) a b h (inr m) (inl e) =
    let p = differs_from-same t xs a h m in let q : b ≡ t = cc in p ∙ sym q
distinct_stances-same (some t ∷ xs) a b h (inr m) (inr n) =
    differs_from-same t xs a h m ∙ sym (differs_from-same t xs b h n)

differs_from-other :
    (t : String) (xs : List (Option String))
    → differs_from t xs ≡ true
    → (u : String) × Elem (some u) xs × (str_eq u t ≡ false)
unfolding differs_from
differs_from-other t [] h = cc
differs_from-other t (none ∷ xs) h = let (u, m, e) = differs_from-other t xs h in (u, inr m, e)
differs_from-other t (some v ∷ xs) h = elim (Bool-cases (str_eq v t)) [
  | inr e ↦ (v, inl refl, e)
  | inl e ↦ let (u, m, f) = differs_from-other t xs (ground arith) in (u, inr m, f)
]

distinct_stances-two :
    (xs : List (Option String))
    → distinct_stances xs ≡ true
    → (a b : String) × Elem (some a) xs × Elem (some b) xs × (str_eq a b ≡ false)
unfolding distinct_stances
distinct_stances-two [] h = cc
distinct_stances-two (none ∷ xs) h =
    let (a, b, m, n, e) = distinct_stances-two xs h in (a, b, inr m, inr n, e)
distinct_stances-two (some t ∷ xs) h =
    let (u, m, e) = differs_from-other t xs h in (u, t, inr m, inl refl, e)

module _ {F : Type 0} ⦃fl : Float F⦄ where
  -- A greatest and a least of the scores.
  abbrev IsMost : F → List F → Type 0
  IsMost x xs = Elem x xs × All (λ y. y ≼ x) xs

  abbrev IsLeast : F → List F → Type 0
  IsLeast x xs = Elem x xs × All (λ y. x ≼ y) xs

  -- Two stances differ, or the greatest of several scores is above the least by the threshold.
  abbrev pub Conflict : List (Option String) → List F → F → Type 0
  Conflict stances xs threshold =
      ((a b : String) × Elem (some a) stances × Elem (some b) stances × (str_eq a b ≡ false))
      ⊎ ((2 ≤ length xs)
          × (x y : F) × IsMost x xs
          × IsLeast y xs
          × (fl.le threshold (fl.sub x y) ≡ true))

  -- All stances are the same, and several scores are not that far apart.
  abbrev pub Accord : List (Option String) → List F → F → Type 0
  Accord stances xs threshold =
      ((a b : String) → Elem (some a) stances → Elem (some b) stances → a ≡ b)
      × ((length xs < 2)
          ⊎ ((x y : F) × IsMost x xs × IsLeast y xs × (fl.le threshold (fl.sub x y) ≡ false)))

  module _ (o : IsOrdered F) where
    fmax-IsMost : (a x m : F) (xs : List F) → IsMost m (fmax a x ∷ xs) → IsMost m (a ∷ x ∷ xs)
    fmax-IsMost a x m xs h = elim (Bool-cases (fl.lt a x)) [
      | inl e ↦ let (i, k) = rw e at h in (inr i, (≼_trans o a x m (lt_asymm o a x e) k.0, k))
      | inr e ↦ let (i, k) = rw e at h in (past a x xs m i, (k.0, (≼_trans o x a m e k.0, k.1)))
    ]

    fmin-IsLeast : (a x m : F) (xs : List F) → IsLeast m (fmin a x ∷ xs) → IsLeast m (a ∷ x ∷ xs)
    fmin-IsLeast a x m xs h = elim (Bool-cases (fl.lt x a)) [
      | inl e ↦ let (i, k) = rw e at h in (inr i, (≼_trans o m x a k.0 (lt_asymm o x a e), k))
      | inr e ↦ let (i, k) = rw e at h in (past a x xs m i, (k.0, (≼_trans o m a x k.0 e, k.1)))
    ]

    spread-ends :
        (most least : F) (xs : List F)
        → (x y : F) × IsMost x (most ∷ xs)
          × IsLeast y (least ∷ xs)
          × (spread most least xs ≡ fl.sub x y)
    unfolding spread
    spread-ends most least [] =
        (most, least, (inl refl, (o.lt_irrefl most, tt)), (inl refl, (o.lt_irrefl least, tt)), refl)
    spread-ends most least (z ∷ zs) =
        let (x, y, h, k, e) = spread-ends (fmax most z) (fmin least z) zs in
        (x, y, fmax-IsMost most z x zs h, fmin-IsLeast least z y zs k, e)

    agreed_or_not :
        (stances : List (Option String)) (xs : List F) (threshold : F)
        → distinct_stances stances ≡ false
        → ((is_spread threshold xs ≡ true) × Conflict stances xs threshold)
          ⊎ ((is_spread threshold xs ≡ false) × Accord stances xs threshold)
    agreed_or_not stances [] threshold h =
        inr (refl, ((λ a b. distinct_stances-same stances a b h), inl (omega arith)))
    agreed_or_not stances (x ∷ []) threshold h =
        inr (refl, ((λ a b. distinct_stances-same stances a b h), inl (omega arith)))
    agreed_or_not stances (x ∷ z ∷ zs) threshold h =
        let (u, v, m, l, e) = spread-ends x x (z ∷ zs) in
        elim (Bool-cases (fl.le threshold (fl.sub u v))) [
          | inl k ↦ inl (rw e k, inr (omega arith, u, v, m, l, k))
          | inr k ↦
              inr (rw e k, ((λ a b. distinct_stances-same stances a b h), inr (u, v, m, l, k)))
        ]

    -- Positions are classed as a disagreement exactly where two stances differ or, of at least two scores,
    -- the greatest is above the least by the threshold; otherwise the stances are the same, and the
    -- scores, where there are two, are not that far apart.
    pub classify_disagreement_iff :
        (stances : List (Option String)) (scores : List (Option F)) (threshold : F)
        → ((classify_disagreement stances scores threshold ≡ true)
            × Conflict stances (available scores) threshold)
          ⊎ ((classify_disagreement stances scores threshold ≡ false)
              × Accord stances (available scores) threshold)
    unfolding classify_disagreement
    classify_disagreement_iff stances scores threshold =
        elim (Bool-cases (distinct_stances stances)) [
          | inl e ↦ inl (rw e refl, inl (distinct_stances-two stances e))
          | inr e ↦ rw e (agreed_or_not stances (available scores) threshold e)
        ]
