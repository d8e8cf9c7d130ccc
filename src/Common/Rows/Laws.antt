-- ===== src/Common/Rows/Laws.antt =====
-- Laws of the queries and writes on a table.
use middle_east_geopolitic.Common.Lists.{All, Elem, length}
use middle_east_geopolitic.Common.Tests.{ltb, if◌then◌else◌, Bool-cases}
use Prim.Native.Nat.{ℕ, suc}
use mathlib.Core.Path.{◌≡◌, refl, ap}
use mathlib.Core.Logic.{inl, inr}
use mathlib.Core.Bool.{Bool, true, false}
use mathlib.Core.List.{List, [], ◌∷◌, ◌++◌}
use mathlib.Core.Option.{none, some}
use native.Mathlib.Omega.{arith}
use middle_east_geopolitic.Common.Rows.{insert_asc, order_asc, select, first?, update}
use middle_east_geopolitic.Common.{if_both}

module _ {A : Type 0} where
  pub select-append :
      (test : A → Bool) (xs ys : List A) → select test (xs ++ ys) ≡ select test xs ++ select test ys
  unfolding select
  select-append test [] ys = refl
  select-append test (x ∷ xs) ys = ground (arith, select-append test xs ys)

  -- What a query returns is a row of the table that passes its test.
  pub select_sound :
      (test : A → Bool) (xs : List A) (a : A)
      → Elem a (select test xs)
      → Elem a xs × (test a ≡ true)
  unfolding select
  select_sound test [] a h = elim h [ ]
  select_sound test (x ∷ xs) a h = ground (arith, select_sound test xs a)

  pub select_complete :
      (test : A → Bool) (xs : List A) (a : A) → Elem a xs → test a ≡ true → Elem a (select test xs)
  unfolding select
  select_complete test [] a h t = elim h [ ]
  select_complete test (x ∷ xs) a h t = ground (arith, select_complete test xs a)

  pub first?_sound :
      (test : A → Bool) (xs : List A) (a : A)
      → first? test xs ≡ some a
      → Elem a xs × (test a ≡ true)
  unfolding first?
  first?_sound test [] a h = cc
  first?_sound test (x ∷ xs) a h = ground (arith, first?_sound test xs a)

  pub first?-none :
      (test : A → Bool) (xs : List A) → first? test xs ≡ none → All (λ x. test x ≡ false) xs
  unfolding first?
  first?-none test [] h = tt
  first?-none test (x ∷ xs) h = ground (arith, first?-none test xs)

  pub first?-append_none :
      (test : A → Bool) (xs ys : List A)
      → first? test xs ≡ none
      → first? test (xs ++ ys) ≡ first? test ys
  unfolding first?
  first?-append_none test [] ys h = refl
  first?-append_none test (x ∷ xs) ys h = ground (arith, first?-append_none test xs ys)

  pub first?-append_some :
      (test : A → Bool) (xs ys : List A) (a : A)
      → first? test xs ≡ some a
      → first? test (xs ++ ys) ≡ some a
  unfolding first?
  first?-append_some test [] ys a h = cc
  first?-append_some test (x ∷ xs) ys a h = ground (arith, first?-append_some test xs ys a)

  pub All-Elem : (P : A → Type 0) (xs : List A) (a : A) → All P xs → Elem a xs → P a
  All-Elem P [] a h m = elim m [ ]
  All-Elem P (x ∷ xs) a h (inl e) = rw e h.0
  All-Elem P (x ∷ xs) a h (inr m) = All-Elem P xs a h.1 m

  pub All-update :
      (P : A → Type 0) (test : A → Bool) (f : A → A)
      → ((a : A) → test a ≡ true → P a → P (f a))
      → (xs : List A) → All P xs
      → All P (update test f xs)
  unfolding update
  All-update P test f keep [] h = tt
  All-update P test f keep (x ∷ xs) h = (ground (arith, keep x), All-update P test f keep xs h.1)

  pub length-update :
      (test : A → Bool) (f : A → A) (xs : List A) → length (update test f xs) ≡ length xs
  unfolding update
  length-update test f [] = refl
  length-update test f (x ∷ xs) = ap suc (length-update test f xs)

  -- A change of the rows that pass a test, which keeps the test, changes what the query returns.
  pub first?-update :
      (test : A → Bool) (f : A → A)
      → ((a : A) → test a ≡ true → test (f a) ≡ true)
      → (xs : List A) (a : A) → first? test xs ≡ some a
      → first? test (update test f xs) ≡ some (f a)
  unfolding first? update
  first?-update test f keep [] a h = cc
  first?-update test f keep (x ∷ xs) a h = ground (arith, keep x, first?-update test f keep xs a)

  -- It leaves another row that the query returns as it is.
  pub first?-update_other :
      (test changed : A → Bool) (f : A → A)
      → ((a : A) → test (f a) ≡ test a)
      → (xs : List A) (a : A) → first? test xs ≡ some a
      → changed a ≡ false
      → first? test (update changed f xs) ≡ some a
  unfolding first? update
  first?-update_other test changed f keep [] a h c = cc
  first?-update_other test changed f keep (x ∷ xs) a h c =
      ground (arith, keep x, first?-update_other test changed f keep xs a)

  -- Each row of a changed table comes from a row of the table.
  pub update_complete :
      (test : A → Bool) (f : A → A) (xs : List A) (a : A)
      → Elem a xs
      → Elem (if test a then f a else a) (update test f xs)
  unfolding update
  update_complete test f [] a h = elim h [ ]
  update_complete test f (x ∷ xs) a (inl e) = inl (rw e refl)
  update_complete test f (x ∷ xs) a (inr m) = inr (update_complete test f xs a m)

  pub Elem-append : (xs ys : List A) (a : A) → Elem a xs → Elem a (xs ++ ys)
  Elem-append (x ∷ xs) ys a (inl e) = inl e
  Elem-append (x ∷ xs) ys a (inr m) = inr (Elem-append xs ys a m)
  Elem-append [] ys a h = elim h [ ]

  insert_asc-All :
      (P : A → Type 0) (key : A → ℕ) (a : A) (xs : List A)
      → P a
      → All P xs
      → All P (insert_asc key a xs)
  unfolding insert_asc
  insert_asc-All P key a [] p h = (p, tt)
  insert_asc-All P key a (x ∷ xs) p h =
      if_both (All P) (ltb (key x) (key a)) _ _ (h.0, insert_asc-All P key a xs p h.1) (p, h)

  pub order_asc-All :
      (P : A → Type 0) (key : A → ℕ) (xs : List A) → All P xs → All P (order_asc key xs)
  unfolding order_asc
  order_asc-All P key [] h = tt
  order_asc-All P key (x ∷ xs) h = insert_asc-All P key x _ h.0 (order_asc-All P key xs h.1)

  -- A statement about the rows of a table that pass a test, read off the answer.
  pub All-select :
      (P : A → Type 0) (test : A → Bool) (xs : List A)
      → All (λ x. test x ≡ true → P x) xs
      → All P (select test xs)
  unfolding select
  All-select P test [] h = tt
  All-select P test (x ∷ xs) h = elim (Bool-cases (test x)) [
    | inl e ↦ rw (e, select) (h.0 e, All-select P test xs h.1)
    | inr e ↦ rw (e, select) (All-select P test xs h.1)
  ]

  -- A change of rows that fail the test, before and after, does not change the answer.
  pub select-update_other :
      (test changed : A → Bool) (f : A → A)
      → ((a : A) → changed a ≡ true → (test a ≡ false) × (test (f a) ≡ false))
      → (xs : List A) → select test (update changed f xs) ≡ select test xs
  unfolding select update
  select-update_other test changed f keep [] = refl
  select-update_other test changed f keep (x ∷ xs) =
      ground (arith, keep x, select-update_other test changed f keep xs)

  pub select-append_other :
      (test : A → Bool) (xs : List A) (a : A)
      → test a ≡ false
      → select test (xs ++ (a ∷ [])) ≡ select test xs
  unfolding select
  select-append_other test [] a h = ground arith
  select-append_other test (x ∷ xs) a h = ground (arith, select-append_other test xs a h)

  pub first?-head :
      (test : A → Bool) (a : A) (xs : List A) → test a ≡ true → first? test (a ∷ xs) ≡ some a
  unfolding first?
  first?-head test a xs h = rw h refl
