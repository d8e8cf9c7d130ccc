-- ===== src/Common/Rows/Latest.antt =====
-- The row with the latest key: `order_by(key.desc()).limit(1)` on a table.
use middle_east_geopolitic.Common.Lists.{All, All-impl, Elem}
use middle_east_geopolitic.Common.Tests.{ltb, if◌then◌else◌, Bool-cases, Option-cases}
use Prim.Native.Nat.{ℕ, ◌≤◌}
use mathlib.Core.Path.{◌≡◌, refl, subst}
use mathlib.Core.Logic.{inl, inr}
use mathlib.Core.Bool.{Bool, true, false}
use mathlib.Core.List.{List, [], ◌∷◌}
use mathlib.Core.Option.{Option, none, some}
use native.Mathlib.Omega.{arith}
use middle_east_geopolitic.Common.Rows.{select, latest}
use middle_east_geopolitic.Common.Rows.Laws.{select_sound}

module _ {A : Type 0} where
  latest-none : (key : A → ℕ) (xs : List A) → latest key xs ≡ none → xs ≡ []
  unfolding latest
  latest-none key [] h = refl
  latest-none key (x ∷ xs) h = ground arith

  latest-step :
      (key : A → ℕ) (x : A) (xs : List A) (y a : A)
      → Elem y xs
      → All (λ z. key z ≤ key y) xs
      → (if ltb (key x) (key y) then some y else some x) ≡ some a
      → Elem a (x ∷ xs) × All (λ z. key z ≤ key a) (x ∷ xs)
  latest-step key x xs y a m h e = elim (Bool-cases (ltb (key x) (key y))) [
    | inl t ↦
        let p : y ≡ a = cc (rw t at e) in
        subst (λ b. Elem b (x ∷ xs) × All (λ z. key z ≤ key b) (x ∷ xs)) p
          (inr m, (ground arith, h))
    | inr t ↦
        let p : x ≡ a = cc (rw t at e) in
        subst (λ b. Elem b (x ∷ xs) × All (λ z. key z ≤ key b) (x ∷ xs)) p
          (
            inl refl,
            (
              ground arith,
              All-impl (λ z. key z ≤ key y) (λ z. key z ≤ key x) (λ z k. ground arith) xs h,
            ),
          )
  ]

  -- The row that `order_by(key.desc()).limit(1)` returns is in the table, and no row has a later key.
  pub latest_sound :
      (key : A → ℕ) (xs : List A) (a : A)
      → latest key xs ≡ some a
      → Elem a xs × All (λ x. key x ≤ key a) xs
  unfolding latest
  latest_sound key [] a h = cc
  latest_sound key (x ∷ xs) a h = elim (Option-cases (latest key xs)) [
    | inl e ↦ let p : xs ≡ [] = latest-none key xs e in rw p (ground (arith))
    | inr (y, e) ↦
        let ih = latest_sound key xs y e in latest-step key x xs y a ih.0 ih.1 (rw e at h)
  ]

  -- The latest row that passes a test, or that there is none.
  abbrev pub LatestOf : (A → ℕ) → (A → Bool) → List A → Option A → Type 0
  LatestOf key test xs none = All (λ x. test x ≡ false) xs
  LatestOf key test xs (some l) =
      Elem l xs × (test l ≡ true) × All (λ x. test x ≡ true → key x ≤ key l) xs

  select-nil : (test : A → Bool) (xs : List A) → select test xs ≡ [] → All (λ x. test x ≡ false) xs
  unfolding select
  select-nil test [] h = tt
  select-nil test (x ∷ xs) h = ground (arith, select-nil test xs)

  select-All :
      (P : A → Type 0) (test : A → Bool) (xs : List A)
      → All P (select test xs)
      → All (λ x. test x ≡ true → P x) xs
  unfolding select
  select-All P test [] h = tt
  select-All P test (x ∷ xs) h = elim (Bool-cases (test x)) [
    | inl e ↦ let k = rw (e, select) at h in ((λ _. k.0), select-All P test xs k.1)
    | inr e ↦ ((λ t. cc), select-All P test xs (rw (e, select) at h))
  ]

  pub latest-select :
      (key : A → ℕ) (test : A → Bool) (xs : List A)
      → LatestOf key test xs (latest key (select test xs))
  latest-select key test xs = elim (Option-cases (latest key (select test xs))) [
    | inl e ↦ rw e (select-nil test xs (latest-none key (select test xs) e))
    | inr (l, e) ↦
        let (m, h) = latest_sound key (select test xs) l e in
        let (m', t) = select_sound test xs l m in
        rw e (m', t, select-All (λ x. key x ≤ key l) test xs h)
  ]
