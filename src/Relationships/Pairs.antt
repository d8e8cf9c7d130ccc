-- ===== src/Relationships/Pairs.antt =====
-- One relationship of a type between two actors, whichever is named first.
use text.Mathlib.TextPositions.{eq_refl}
use middle_east_geopolitic.Common.{
  inr, if◌then◌else◌, sym, inl, none, Option-cases, ◌∙◌, some, subst, true, Option, refl, ◌==◌,
  ◌&&◌, [], str_eq, ◌∷◌, ap, arith, List, ◌≡◌, String, ◌||◌, Bool, ℕ,
}
use middle_east_geopolitic.Common.Rows.{first?}
use middle_east_geopolitic.Relationships.Service.{
  find_or_create, require_known_actor, insert_relationship, new_relationship,
  RelationshipDirectionality, RelationshipStore, is_between, Relationship, create_relationship,
  get_between,
}
use middle_east_geopolitic.Common.Result.{◌>>=◌, not_found, ok_inj, ◌>>◌, or_raise, bind-ok, ok}
use middle_east_geopolitic.Common.Rows.Laws.{first?-append_none}

or-swap : (a b : Bool) → (a || b) ≡ (b || a)
or-swap a b = ground arith

is_between-swap :
    (a b : ℕ) (kind : String) (r : Relationship) → is_between a b kind r ≡ is_between b a kind r
is_between-swap a b kind r =
    ap (λ t. str_eq r.relationship_type kind && t)
      (or-swap (r.source_actor_id == a && r.target_actor_id == b)
        (r.source_actor_id == b && r.target_actor_id == a))

first?-same :
    (test other : Relationship → Bool)
    → ((r : Relationship) → test r ≡ other r)
    → (rs : List Relationship) → first? test rs ≡ first? other rs
unfolding first?
first?-same test other e [] = refl
first?-same test other e (r ∷ rs) = rw (e r, first?-same test other e rs) refl

new_relationship-is_between :
    (now fresh a b : ℕ) (kind : String) (d : RelationshipDirectionality)
    → is_between a b kind (new_relationship now fresh a b kind d) ≡ true
new_relationship-is_between now fresh a b kind d = ground (arith, eq_refl kind)

module _ {F : Type 0} where
  -- The lookup does not see which of the two actors is named first.
  get_between-swap :
      (a b : ℕ) (kind : String) (s : RelationshipStore F)
      → get_between a b kind s ≡ get_between b a kind s
  unfolding get_between
  get_between-swap a b kind s =
      first?-same (is_between a b kind) (is_between b a kind) (is_between-swap a b kind)
        s.relationships

  find_or_create-there :
      (a b : ℕ) (kind : String) (row : Relationship) (s : RelationshipStore F)
      → is_between a b kind row ≡ true
      → get_between a b kind (find_or_create (get_between a b kind s) row s).1
        ≡ some (find_or_create (get_between a b kind s) row s).0
  unfolding get_between insert_relationship first?
  find_or_create-there a b kind row s e =
      elim (Option-cases (first? (is_between a b kind) s.relationships)) [
        | inl n ↦
            rw (n, find_or_create)
              (first?-append_none (is_between a b kind) s.relationships (row ∷ []) n
                ∙ ap (λ t. if t then some row else none) e)
        | inr (x, n) ↦ rw (n, find_or_create) n
      ]

  find_or_create-actors :
      (found : Option Relationship) (row : Relationship) (s : RelationshipStore F)
      → (find_or_create found row s).1.actors ≡ s.actors
  unfolding insert_relationship
  find_or_create-actors none row s = refl
  find_or_create-actors (some r) row s = refl

  known-same :
      (a : ℕ) (s t : RelationshipStore F)
      → t.actors ≡ s.actors
      → require_known_actor a s ≡ ok tt
      → require_known_actor a t ≡ ok tt
  known-same a s t e h =
      subst (λ as_list. (or_raise (first? (λ b. b == a) as_list) not_found >>= λ _. ok tt) ≡ ok tt)
        (sym e) h

  create_relationship-run :
      (now fresh a b : ℕ) (kind : String) (d : RelationshipDirectionality) (s : RelationshipStore F)
      (r : Relationship)
      → require_known_actor a s ≡ ok tt
      → require_known_actor b s ≡ ok tt
      → get_between a b kind s ≡ some r
      → create_relationship now fresh a b kind d s ≡ ok (r, s)
  unfolding create_relationship
  create_relationship-run now fresh a b kind d s r p q g =
      let step : (require_known_actor a s >> require_known_actor b s) ≡ ok tt =
        ap (λ x. x >> require_known_actor b s) p ∙ q in
      ap
        (λ x.
          x
          >> ok (find_or_create (get_between a b kind s) (new_relationship now fresh a b kind d) s))
        step
      ∙ ap (λ x. ok (find_or_create x (new_relationship now fresh a b kind d) s)) g

  -- After a relationship was created between two actors, a call for the same type and the two actors in
  -- the other order, with any directionality, returns that relationship and stores nothing.
  pub create_relationship-swapped :
      (now now' fresh fresh' a b : ℕ) (kind : String) (d d' : RelationshipDirectionality)
      (s t : RelationshipStore F) (r : Relationship)
      → create_relationship now fresh a b kind d s ≡ ok (r, t)
      → create_relationship now' fresh' b a kind d' t ≡ ok (r, t)
  unfolding create_relationship
  create_relationship-swapped now now' fresh fresh' a b kind d d' s t r h =
      let row = new_relationship now fresh a b kind d in
      let (_, p, q) = bind-ok (require_known_actor a s >> require_known_actor b s) _ h in
      let (_, pa, pb) = bind-ok (require_known_actor a s) _ p in
      let e = ok_inj q in
      let same : t.actors ≡ s.actors =
        ap (λ x. x.1.actors) (sym e) ∙ find_or_create-actors (get_between a b kind s) row s in
      let there : get_between a b kind t ≡ some r =
        subst (λ (x : Relationship × RelationshipStore F). get_between a b kind x.1 ≡ some x.0) e
          (find_or_create-there a b kind row s
            (new_relationship-is_between now fresh a b kind d)) in
      create_relationship-run now' fresh' b a kind d' t r (known-same b s t same pb)
        (known-same a s t same pa) (get_between-swap b a kind t ∙ there)
