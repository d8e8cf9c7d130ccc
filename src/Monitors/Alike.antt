-- ===== src/Monitors/Alike.antt =====
-- Tables of monitors before and after a round of apps/worker/tasks/dispatch_notifications.py.
use middle_east_geopolitic.Monitors.Models.{of_state, Monitor}
use middle_east_geopolitic.Common.Rows.{insert_asc, order_asc, select}
use middle_east_geopolitic.Common.{
  true, false, if◌then◌else◌, ltb, inr, zero, All-impl, ◌∙◌, suc, inl, refl, Bool, Elem, ◌≡◌, [],
  String, Option, All, take, ◌∷◌, ℕ, List,
}

-- The monitors of two tables are the same, but for when they were evaluated and triggered.
abbrev pub Alike : {F : Type 0} → List (Monitor F) → List (Monitor F) → Type 0
Alike [] [] = Unit
Alike (x ∷ xs) (y ∷ ys) =
    ((x.id ≡ y.id) × (x.name ≡ y.name) × (x.enabled ≡ y.enabled)) × Alike xs ys
Alike _ _ = ⊥

module _ {F : Type 0} where
  pub Alike-refl : (xs : List (Monitor F)) → Alike xs xs
  Alike-refl [] = tt
  Alike-refl (x ∷ xs) = ((refl, refl, refl), Alike-refl xs)

  pub Alike-trans : (xs ys zs : List (Monitor F)) → Alike xs ys → Alike ys zs → Alike xs zs
  Alike-trans [] [] [] h k = tt
  Alike-trans (x ∷ xs) (y ∷ ys) (z ∷ zs) h k =
      ((h.0.0 ∙ k.0.0, h.0.1 ∙ k.0.1, h.0.2 ∙ k.0.2), Alike-trans xs ys zs h.1 k.1)
  Alike-trans [] [] (z ∷ zs) h k = elim k [ ]
  Alike-trans [] (y ∷ ys) zs h k = elim h [ ]
  Alike-trans (x ∷ xs) [] zs h k = elim h [ ]
  Alike-trans (x ∷ xs) (y ∷ ys) [] h k = elim k [ ]

  Alike-if :
      (b c : Bool) (xs ys xs' ys' : List (Monitor F))
      → b ≡ c
      → Alike xs ys
      → Alike xs' ys'
      → Alike (if b then xs else xs') (if c then ys else ys')
  Alike-if true true xs ys xs' ys' e h k = h
  Alike-if false false xs ys xs' ys' e h k = k
  Alike-if true false xs ys xs' ys' e h k = absurd (cc e)
  Alike-if false true xs ys xs' ys' e h k = absurd (cc e)

  pub Alike-select :
      (state : Option Bool) (xs ys : List (Monitor F))
      → Alike xs ys
      → Alike
          (select (λ m. of_state state m.enabled) xs)
          (select (λ m. of_state state m.enabled) ys)
  unfolding select
  Alike-select state [] [] h = tt
  Alike-select state (x ∷ xs) (y ∷ ys) h =
      let ih = Alike-select state xs ys h.1 in
      Alike-if _ _ _ _ _ _ (λ i. of_state state (h.0.2 i)) (h.0, ih) ih
  Alike-select state [] (y ∷ ys) h = elim h [ ]
  Alike-select state (x ∷ xs) [] h = elim h [ ]

  Alike-insert :
      (collate : String → ℕ) (a b : Monitor F) (xs ys : List (Monitor F))
      → (a.id ≡ b.id) × (a.name ≡ b.name) × (a.enabled ≡ b.enabled)
      → Alike xs ys
      → Alike (insert_asc (λ m. collate m.name) a xs) (insert_asc (λ m. collate m.name) b ys)
  unfolding insert_asc
  Alike-insert collate a b [] [] e h = (e, tt)
  Alike-insert collate a b (x ∷ xs) (y ∷ ys) e h =
      Alike-if _ _ _ _ _ _ (λ i. ltb (collate (h.0.1 i)) (collate (e.1 i)))
        (h.0, Alike-insert collate a b xs ys e h.1) (e, h)
  Alike-insert collate a b [] (y ∷ ys) e h = elim h [ ]
  Alike-insert collate a b (x ∷ xs) [] e h = elim h [ ]

  pub Alike-order :
      (collate : String → ℕ) (xs ys : List (Monitor F))
      → Alike xs ys
      → Alike (order_asc (λ m. collate m.name) xs) (order_asc (λ m. collate m.name) ys)
  unfolding order_asc
  Alike-order collate [] [] h = tt
  Alike-order collate (x ∷ xs) (y ∷ ys) h =
      Alike-insert collate x y _ _ h.0 (Alike-order collate xs ys h.1)
  Alike-order collate [] (y ∷ ys) h = elim h [ ]
  Alike-order collate (x ∷ xs) [] h = elim h [ ]

  pub Alike-take : (n : ℕ) (xs ys : List (Monitor F)) → Alike xs ys → Alike (take n xs) (take n ys)
  Alike-take zero xs ys h = tt
  Alike-take (suc n) [] [] h = tt
  Alike-take (suc n) (x ∷ xs) (y ∷ ys) h = (h.0, Alike-take n xs ys h.1)
  Alike-take (suc n) [] (y ∷ ys) h = elim h [ ]
  Alike-take (suc n) (x ∷ xs) [] h = elim h [ ]

  -- Each monitor of the second table has a partner with its id.
  pub Alike-partners :
      (xs ys : List (Monitor F))
      → Alike xs ys
      → All (λ y. (x : Monitor F) × Elem x xs × (x.id ≡ y.id)) ys
  Alike-partners [] [] h = tt
  Alike-partners (x ∷ xs) (y ∷ ys) h = (
    (x, inl refl, h.0.0),
    All-impl (λ y. (x : Monitor F) × Elem x xs × (x.id ≡ y.id)) _ (λ z (a, m, e). (a, inr m, e)) ys
        (Alike-partners xs ys h.1),
  )
  Alike-partners [] (y ∷ ys) h = elim h [ ]
  Alike-partners (x ∷ xs) [] h = elim h [ ]
