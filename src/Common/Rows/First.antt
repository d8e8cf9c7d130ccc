-- ===== src/Common/Rows/First.antt =====
-- Laws of `select(…).where(test).order_by(key).limit(1)`, and of a table with one row added.
use middle_east_geopolitic.Common.Rows.{
  order_desc, insert_desc, insert_asc, order_asc, select, update,
}
use middle_east_geopolitic.Common.{
  ltb, if_both, Bool-cases, inr, ap, inl, subst, ◌⊎◌, true, arith, refl, some, none, ◌∷◌, false,
  ◌++◌, [], ◌≡◌, Elem, All, ◌≢◌, head?, Bool, List, ℕ,
}
use middle_east_geopolitic.Common.Rows.Laws.{select_sound, order_asc-All}

module _ {A : Type 0} where
  insert_asc-ne-nil : (key : A → ℕ) (a : A) (xs : List A) → insert_asc key a xs ≢ []
  unfolding insert_asc
  insert_asc-ne-nil key a [] h = cc
  insert_asc-ne-nil key a (x ∷ xs) h = ground arith

  order_asc-nil : (key : A → ℕ) (xs : List A) → order_asc key xs ≡ [] → xs ≡ []
  unfolding order_asc
  order_asc-nil key [] h = refl
  order_asc-nil key (x ∷ xs) h = absurd (insert_asc-ne-nil key x (order_asc key xs) h)

  head?-none : (xs : List A) → head? xs ≡ none → xs ≡ []
  head?-none [] h = refl
  head?-none (x ∷ xs) h = cc

  head?-All : (P : A → Type 0) (xs : List A) (a : A) → All P xs → head? xs ≡ some a → P a
  head?-All P [] a h e = cc
  head?-All P (x ∷ xs) a h e = let p : x ≡ a = cc in subst P p h.0

  select-nil : (test : A → Bool) (xs : List A) → select test xs ≡ [] → All (λ x. test x ≡ false) xs
  unfolding select
  select-nil test [] h = tt
  select-nil test (x ∷ xs) h = ground (arith, select-nil test xs)

  pub All-from : (P : A → Type 0) (xs : List A) → ((a : A) → Elem a xs → P a) → All P xs
  All-from P [] f = tt
  All-from P (x ∷ xs) f = (f x (inl refl), All-from P xs (λ a m. f a (inr m)))

  pub earliest-none :
      (key : A → ℕ) (test : A → Bool) (xs : List A)
      → head? (order_asc key (select test xs)) ≡ none
      → All (λ x. test x ≡ false) xs
  earliest-none key test xs h =
      select-nil test xs (order_asc-nil key (select test xs) (head?-none _ h))

  pub earliest_sound :
      (key : A → ℕ) (test : A → Bool) (xs : List A) (a : A)
      → head? (order_asc key (select test xs)) ≡ some a
      → Elem a xs × (test a ≡ true)
  earliest_sound key test xs a h =
      head?-All (λ x. Elem x xs × (test x ≡ true)) (order_asc key (select test xs)) a
        (order_asc-All _ key (select test xs)
          (All-from _ (select test xs) (λ x m. select_sound test xs x m)))
        h

  pub Elem-snoc : (xs : List A) (a b : A) → Elem a (xs ++ (b ∷ [])) → Elem a xs ⊎ (a ≡ b)
  Elem-snoc [] a b (inl e) = inr e
  Elem-snoc [] a b (inr m) = elim m [ ]
  Elem-snoc (x ∷ xs) a b (inl e) = inl (inl e)
  Elem-snoc (x ∷ xs) a b (inr m) = elim (Elem-snoc xs a b m) [ inl k ↦ inl (inr k) | inr e ↦ inr e ]

  pub All-init : (P : A → Type 0) (xs : List A) (b : A) → All P (xs ++ (b ∷ [])) → All P xs
  All-init P [] b h = tt
  All-init P (x ∷ xs) b h = (h.0, All-init P xs b h.1)

  -- A change that passes the last row only.
  pub update-snoc :
      (test : A → Bool) (f : A → A) (xs : List A) (b : A)
      → All (λ x. test x ≡ false) xs
      → test b ≡ true
      → update test f (xs ++ (b ∷ [])) ≡ xs ++ (f b ∷ [])
  unfolding update
  update-snoc test f [] b h t = rw t refl
  update-snoc test f (x ∷ xs) b h t = rw h.0 (ap (λ ys. x ∷ ys) (update-snoc test f xs b h.1 t))

  pub select-none_snoc :
      (test : A → Bool) (xs : List A) (b : A)
      → select test xs ≡ []
      → test b ≡ true
      → select test (xs ++ (b ∷ [])) ≡ b ∷ []
  unfolding select
  select-none_snoc test [] b h t = rw t refl
  select-none_snoc test (x ∷ xs) b h t = ground (arith, select-none_snoc test xs b)

  insert_desc-All :
      (P : A → Type 0) (key : A → ℕ) (a : A) (xs : List A)
      → P a
      → All P xs
      → All P (insert_desc key a xs)
  unfolding insert_desc
  insert_desc-All P key a [] p h = (p, tt)
  insert_desc-All P key a (x ∷ xs) p h =
      if_both (All P) (ltb (key a) (key x)) _ _ (h.0, insert_desc-All P key a xs p h.1) (p, h)

  pub order_desc-All :
      (P : A → Type 0) (key : A → ℕ) (xs : List A) → All P xs → All P (order_desc key xs)
  unfolding order_desc
  order_desc-All P key [] h = tt
  order_desc-All P key (x ∷ xs) h = insert_desc-All P key x _ h.0 (order_desc-All P key xs h.1)

  -- What a query returns passes its test.
  pub select-tested :
      (P : A → Type 0) (test : A → Bool)
      → ((a : A) → test a ≡ true → P a)
      → (xs : List A) → All P (select test xs)
  unfolding select
  select-tested P test f [] = tt
  select-tested P test f (x ∷ xs) = elim (Bool-cases (test x)) [
    | inl e ↦ rw (e, select) (f x e, select-tested P test f xs)
    | inr e ↦ rw (e, select) (select-tested P test f xs)
  ]

  -- Each row is changed or kept.
  pub All-update_two :
      (P : A → Type 0) (test : A → Bool) (f : A → A) (xs : List A)
      → All (λ x. P x × (test x ≡ true → P (f x))) xs
      → All P (update test f xs)
  unfolding update
  All-update_two P test f [] h = tt
  All-update_two P test f (x ∷ xs) h = (ground (arith, h.0), All-update_two P test f xs h.1)

  -- Each row that passes the test is changed, and every other row is kept.
  pub All-update_either :
      (P : A → Type 0) (test : A → Bool) (f : A → A) (xs : List A)
      → All (λ x. (test x ≡ false → P x) × (test x ≡ true → P (f x))) xs
      → All P (update test f xs)
  unfolding update
  All-update_either P test f [] h = tt
  All-update_either P test f (x ∷ xs) h = (ground (arith, h.0), All-update_either P test f xs h.1)
