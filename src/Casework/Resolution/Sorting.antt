-- ===== src/Casework/Resolution/Sorting.antt =====
-- The order of a ranking, and that ranking loses nobody.
use middle_east_geopolitic.Common.Float.{≼_trans, lt_asymm, IsOrdered, Float}
use middle_east_geopolitic.Casework.Resolution.{
  ScoredCandidate, ActorCandidate, insert_scored, sort_scored,
}
use middle_east_geopolitic.Common.{
  All-impl, refl, inr, ap, Bool-cases, if_both, map, false, [], arith, inl, ◌∷◌, Elem, All, ◌≡◌,
  List,
}

module _ {F : Type 0} ⦃fl : Float F⦄ where
  pub insert_scored_sound :
      (c : ScoredCandidate F) (ds : List (ScoredCandidate F)) (x : ScoredCandidate F)
      → Elem x (insert_scored c ds)
      → Elem x (c ∷ ds)
  unfolding insert_scored
  insert_scored_sound c [] x h = h
  insert_scored_sound c (d ∷ ds) x h = ground (arith, insert_scored_sound c ds x)

  pub sort_scored_sound :
      (cs : List (ScoredCandidate F)) (x : ScoredCandidate F) → Elem x (sort_scored cs) → Elem x cs
  unfolding sort_scored
  sort_scored_sound [] x h = h
  sort_scored_sound (c ∷ cs) x h = elim (insert_scored_sound c (sort_scored cs) x h) [
    | inl e ↦ inl e
    | inr m ↦ inr (sort_scored_sound cs x m)
  ]

  pub map_sound :
      (f : ActorCandidate → ScoredCandidate F) (cs : List ActorCandidate) (x : ScoredCandidate F)
      → Elem x (map f cs)
      → (c : ActorCandidate) × Elem c cs × (x ≡ f c)
  map_sound f [] x h = elim h [ ]
  map_sound f (c ∷ cs) x (inl e) = (c, inl refl, e)
  map_sound f (c ∷ cs) x (inr m) = let (d, n, e) = map_sound f cs x m in (d, inr n, e)

  module _ (o : IsOrdered F) where
    -- Nobody scores higher than the first.
    abbrev pub Tops : ScoredCandidate F → ScoredCandidate F → Type 0
    Tops c d = fl.lt c.score d.score ≡ false

    pub insert_scored-All :
        (P : ScoredCandidate F → Type 0) (c : ScoredCandidate F) (ds : List (ScoredCandidate F))
        → P c
        → All P ds
        → All P (insert_scored c ds)
    unfolding insert_scored
    insert_scored-All P c [] p h = (p, tt)
    insert_scored-All P c (d ∷ ds) p h =
        if_both (All P) (fl.lt c.score d.score) _ _ (h.0, insert_scored-All P c ds p h.1) (p, h)

    -- The first entry tops the rest, in every suffix.
    abbrev pub Sorted : List (ScoredCandidate F) → Type 0
    Sorted [] = Unit
    Sorted (c ∷ cs) = All (Tops c) cs × Sorted cs

    pub insert_scored-Sorted :
        (c : ScoredCandidate F) (ds : List (ScoredCandidate F))
        → Sorted ds
        → Sorted (insert_scored c ds)
    unfolding insert_scored
    insert_scored-Sorted c [] h = (tt, tt)
    insert_scored-Sorted c (d ∷ ds) h = elim (Bool-cases (fl.lt c.score d.score)) [
      | inl e ↦
          rw (e, insert_scored)
            (
              insert_scored-All (Tops d) c ds (lt_asymm o c.score d.score e) h.0,
              insert_scored-Sorted c ds h.1,
            )
      | inr e ↦
          rw (e, insert_scored)
            (
              (e, All-impl (Tops d) (Tops c) (λ x k. ≼_trans o x.score d.score c.score k e) ds h.0),
              h,
            )
    ]

    pub sort_scored-Sorted : (cs : List (ScoredCandidate F)) → Sorted (sort_scored cs)
    unfolding sort_scored
    sort_scored-Sorted [] = tt
    sort_scored-Sorted (c ∷ cs) = insert_scored-Sorted c (sort_scored cs) (sort_scored-Sorted cs)

    pub insert_scored_complete :
        (c : ScoredCandidate F) (ds : List (ScoredCandidate F)) (x : ScoredCandidate F)
        → Elem x (c ∷ ds)
        → Elem x (insert_scored c ds)
    unfolding insert_scored
    insert_scored_complete c [] x h = h
    insert_scored_complete c (d ∷ ds) x h = ground (arith, insert_scored_complete c ds x)

    pub sort_scored_complete :
        (cs : List (ScoredCandidate F)) (x : ScoredCandidate F)
        → Elem x cs
        → Elem x (sort_scored cs)
    unfolding sort_scored
    sort_scored_complete [] x h = h
    sort_scored_complete (c ∷ cs) x (inl e) = insert_scored_complete c (sort_scored cs) x (inl e)
    sort_scored_complete (c ∷ cs) x (inr m) =
        insert_scored_complete c (sort_scored cs) x (inr (sort_scored_complete cs x m))

    pub map_complete :
        (f : ActorCandidate → ScoredCandidate F) (cs : List ActorCandidate) (c : ActorCandidate)
        → Elem c cs
        → Elem (f c) (map f cs)
    map_complete f (d ∷ ds) c (inl e) = inl (ap f e)
    map_complete f (d ∷ ds) c (inr m) = inr (map_complete f ds c m)
    map_complete f [] c h = elim h [ ]
