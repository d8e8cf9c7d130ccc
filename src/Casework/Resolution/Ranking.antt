-- ===== src/Casework/Resolution/Ranking.antt =====
-- Whom a mention is resolved to, and whom an analyst is shown.
use middle_east_geopolitic.Common.Float.{◌≼◌, IsOrdered, Float}
use middle_east_geopolitic.Casework.Resolution.{
  is_alone, resolution_review, max_surfaced_candidates, Thresholds, is_auto_resolvable,
  auto_resolved, resolve, resolve_confident, surfaced_of, rank_candidates, scored, ScoredCandidate,
  ActorCandidate, sort_scored,
}
use middle_east_geopolitic.Common.{
  true, Option-cases, ◌++◌, none, ◌∙◌, sym, ◌⊎◌, Option, subst, zero, not, some, suc, ◌≤◌, length,
  take, refl, inr, ap, map, [], arith, inl, ◌∷◌, Elem, All, ◌≡◌, ℕ, String, List,
}
use middle_east_geopolitic.Common.Rows.{select}
use middle_east_geopolitic.Common.Rows.Laws.{All-Elem}
use middle_east_geopolitic.Casework.Models.{ReviewItem}
use middle_east_geopolitic.Casework.Resolution.Sorting.{
  map_complete, sort_scored_complete, sort_scored_sound, map_sound, Tops, sort_scored-Sorted,
  Sorted,
}

module _ {F : Type 0} ⦃fl : Float F⦄ where
  module _ (o : IsOrdered F) where
    -- The second of a ranking is behind the first by the gap of ambiguity, and ahead of the rest.
    abbrev IsAhead : F → List (ScoredCandidate F) → Type 0
    IsAhead top [] = Unit
    IsAhead top (d ∷ ds) =
        (fl.of_ℕ 5 ≼ fl.sub top d.score) × All (λ (x : ScoredCandidate F). x.score ≼ d.score) ds

    -- A candidate of the pool that reaches the threshold, whom no candidate outscores, and whom the next of
    -- the others, which are all in `rest`, does not come close to.
    pub record IsBest (ratio : String → String → F) (threshold : F) (name : String)
        (pool : List ActorCandidate) (i : ℕ) : Type 0 where
      pub best : ActorCandidate
      pub is_there : Elem best pool
      pub has_id : best.actor_id ≡ i
      pub reaches : threshold ≼ (scored ratio name best).score
      pub tops :
          (c : ActorCandidate)
          → Elem c pool
          → (scored ratio name c).score ≼ (scored ratio name best).score
      pub rest : List (ScoredCandidate F)
      pub others :
          (c : ActorCandidate)
          → Elem c pool
          → Elem (scored ratio name c) (scored ratio name best ∷ rest)
      pub ranked : rank_candidates ratio name pool ≡ scored ratio name best ∷ rest
      pub is_ahead : IsAhead (scored ratio name best).score rest

    -- The head of a ranking, where the ranking resolves itself.
    auto_resolved-head :
        (ranked : List (ScoredCandidate F)) (threshold : F) (i : ℕ)
        → auto_resolved ranked threshold ≡ some i
        → (c : ScoredCandidate F) × (cs : List (ScoredCandidate F)) × (ranked ≡ c ∷ cs)
          × (c.actor_id ≡ i)
          × (threshold ≼ c.score)
          × (is_alone c.score cs ≡ true)
    unfolding auto_resolved is_auto_resolvable
    auto_resolved-head [] threshold i h = cc
    auto_resolved-head (c ∷ cs) threshold i h =
        (c, cs, refl, ground arith, ground arith, ground arith)

    alone-IsAhead :
        (c : ScoredCandidate F) (cs : List (ScoredCandidate F))
        → Sorted o (c ∷ cs)
        → is_alone c.score cs ≡ true
        → IsAhead c.score cs
    alone-IsAhead c [] s h = tt
    alone-IsAhead c (d ∷ ds) s h = (ground arith, s.1.0)

    head-tops :
        (c : ScoredCandidate F) (cs : List (ScoredCandidate F)) (x : ScoredCandidate F)
        → Sorted o (c ∷ cs)
        → Elem x (c ∷ cs)
        → x.score ≼ c.score
    head-tops c cs x h (inl e) = rw e (o.lt_irrefl c.score)
    head-tops c cs x h (inr m) = All-Elem (Tops o c) cs x h.0 m

    rank_candidates-IsBest :
        (ratio : String → String → F) (threshold : F) (name : String) (pool : List ActorCandidate)
        (i : ℕ)
        → auto_resolved (rank_candidates ratio name pool) threshold ≡ some i
        → IsBest ratio threshold name pool i
    unfolding rank_candidates
    rank_candidates-IsBest ratio threshold name pool i h =
        let all = map (scored ratio name) pool in
        let (c, cs, e, a, t, g) = auto_resolved-head (sort_scored all) threshold i h in
        let sorted : Sorted o (c ∷ cs) = subst (Sorted o) e (sort_scored-Sorted o all) in
        let there : Elem c (sort_scored all) = rw e (inl refl) in
        let (best, m, b) = map_sound (scored ratio name) pool c (sort_scored_sound all c there) in
        record {
          best = best;
          is_there = m;
          has_id = ap (λ x. x.actor_id) (sym b) ∙ a;
          reaches = subst (λ x. threshold ≼ x.score) b t;
          tops = λ d n.
              subst (λ x. (scored ratio name d).score ≼ x.score) b
                (head-tops c cs (scored ratio name d) sorted (
                  subst (Elem (scored ratio name d)) e (
                    sort_scored_complete o all (scored ratio name d)
                      (map_complete o (scored ratio name) pool d n))));
          rest = cs;
          others = λ d n.
              subst (λ x. Elem (scored ratio name d) (x ∷ cs)) b
                (subst (Elem (scored ratio name d)) e (
                  sort_scored_complete o all (scored ratio name d)
                    (map_complete o (scored ratio name) pool d n)));
          ranked = subst (λ x. sort_scored all ≡ x ∷ cs) b e;
          is_ahead =
              subst (λ (x : ScoredCandidate F). IsAhead x.score cs) b (alone-IsAhead c cs sorted g);
        }

    take-length : (n : ℕ) (xs : List (ScoredCandidate F)) → length (take n xs) ≤ n
    take-length zero xs = omega arith
    take-length (suc n) [] = omega arith
    take-length (suc n) (x ∷ xs) = omega (arith, take-length n xs)

    take-All :
        (P : ScoredCandidate F → Type 0) (n : ℕ) (xs : List (ScoredCandidate F))
        → All P xs
        → All P (take n xs)
    take-All P zero xs h = tt
    take-All P (suc n) [] h = tt
    take-All P (suc n) (x ∷ xs) h = (h.0, take-All P n xs h.1)

    reaching :
        (threshold : F) (xs : List (ScoredCandidate F))
        → All (λ c. threshold ≼ c.score) (select (λ c. not (fl.lt c.score threshold)) xs)
    unfolding select
    reaching threshold [] = tt
    reaching threshold (x ∷ xs) = ground (arith, reaching threshold xs)

    surfaced_of-fits :
        (threshold : F) (ranked : List (ScoredCandidate F))
        → (length (surfaced_of threshold ranked) ≤ 5)
          × All (λ c. threshold ≼ c.score) (surfaced_of threshold ranked)
    unfolding surfaced_of
    surfaced_of-fits threshold ranked = (
      take-length max_surfaced_candidates _,
      take-All (λ (c : ScoredCandidate F). threshold ≼ c.score) max_surfaced_candidates _
          (reaching threshold ranked),
    )

    resolve_confident_sound :
        (ratio : String → String → F) (th : Thresholds F) (name : String) (exact : Option ℕ)
        (pool : List ActorCandidate) (i : ℕ)
        → resolve_confident ratio th name exact pool ≡ some i
        → (exact ≡ some i) ⊎ IsBest ratio th.auto_threshold name pool i
    unfolding resolve_confident
    resolve_confident_sound ratio th name (some j) pool i h = inl h
    resolve_confident_sound ratio th name none pool i h =
        inr (rank_candidates-IsBest ratio th.auto_threshold name pool i h)

    -- A mention is resolved without asking only to the actor of that exact name or to a candidate that
    -- reaches the threshold, whom no candidate outscores and who is ahead of the next of the others by the
    -- gap of ambiguity, 5 points, and then no review is queued; otherwise exactly one pending review is queued, with at most five candidates, which all reach the threshold
    -- for reviews.
    pub resolve-decides :
        (ratio : String → String → F) (th : Thresholds F) (now fresh : ℕ)
        (name role target_type : String) (target_id : ℕ) (event_role : Option String)
        (exact : Option ℕ) (pool : List ActorCandidate) (queue : List ReviewItem)
        → let out =
            resolve ratio th now fresh name role target_type target_id event_role exact pool
              queue in
          let shown = surfaced_of th.review_threshold (rank_candidates ratio name pool) in
          ((i : ℕ) × (out ≡ (record { actor_id = some i; review_item_id = none }, queue))
            × ((exact ≡ some i) ⊎ IsBest ratio th.auto_threshold name pool i))
          ⊎ ((out ≡ (
            record { actor_id = none; review_item_id = some fresh },
            queue ++ (resolution_review now fresh role target_type target_id event_role shown ∷ []),
          ))
              × (length shown ≤ 5)
              × All (λ c. th.review_threshold ≼ c.score) shown)
    unfolding resolve
    resolve-decides ratio th now fresh name role target_type target_id event_role exact pool queue =
        elim (Option-cases (resolve_confident ratio th name exact pool)) [
          | inl e ↦
              let q = surfaced_of-fits th.review_threshold (rank_candidates ratio name pool) in
              inr (rw (e, resolve) refl, q.0, q.1)
          | inr (i, e) ↦
              inl (i, rw (e, resolve) refl, resolve_confident_sound ratio th name exact pool i e)
        ]
