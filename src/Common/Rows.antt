-- ===== src/Common/Rows.antt =====
-- What the repositories ask of a table: a table is the list of its rows, oldest first.
pub mod Laws
pub mod First
pub mod Latest
use Prim.Native.Nat.{ℕ}
use mathlib.Core.Bool.{Bool, true}
use mathlib.Core.List.{List, [], ◌∷◌}
use mathlib.Core.Option.{Option, none, some}
use middle_east_geopolitic.Common.Tests.{ltb, leb, if◌then◌else◌}

-- `if bound is not None: stmt = stmt.where(time <= bound)`, and the same with `>=`
abbrev pub no_later : Option ℕ → ℕ → Bool
no_later none t = true
no_later (some bound) t = leb t bound

abbrev pub no_earlier : Option ℕ → ℕ → Bool
no_earlier none t = true
no_earlier (some bound) t = leb bound t

module _ {ℓ} {A : Type ℓ} where
  -- `select(A).where(test)`
  unfoldable pub select : (A → Bool) → List A → List A
  select test [] = []
  select test (x ∷ xs) = let rest = select test xs in if test x then x ∷ rest else rest

  -- `.scalars().first()`, and `session.get` by a test of the primary key
  unfoldable pub first? : (A → Bool) → List A → Option A
  first? test [] = none
  first? test (x ∷ xs) = if test x then some x else first? test xs

  -- A flushed change of the rows that pass the test.
  unfoldable pub update : (A → Bool) → (A → A) → List A → List A
  update test f [] = []
  update test f (x ∷ xs) = (if test x then f x else x) ∷ update test f xs

  -- `.order_by(key.desc()).limit(1).first()`. SQL leaves the choice among equal keys open: here it is
  -- the first such row.
  unfoldable pub latest : (A → ℕ) → List A → Option A
  latest key [] = none
  latest key (x ∷ xs) = elim (latest key xs) [
    | none ↦ some x
    | some y ↦ if ltb (key x) (key y) then some y else some x
  ]

  -- `.order_by(key.desc())`, by insertion. Among equal keys the order of the table stays.
  unfoldable pub insert_desc : (A → ℕ) → A → List A → List A
  insert_desc key a [] = a ∷ []
  insert_desc key a (x ∷ xs) =
      let rest = insert_desc key a xs in if ltb (key a) (key x) then x ∷ rest else a ∷ (x ∷ xs)

  unfoldable pub order_desc : (A → ℕ) → List A → List A
  unfolding insert_desc
  order_desc key [] = []
  order_desc key (x ∷ xs) = insert_desc key x (order_desc key xs)

  -- `.order_by(key)`
  unfoldable pub insert_asc : (A → ℕ) → A → List A → List A
  insert_asc key a [] = a ∷ []
  insert_asc key a (x ∷ xs) =
      let rest = insert_asc key a xs in if ltb (key x) (key a) then x ∷ rest else a ∷ (x ∷ xs)

  unfoldable pub order_asc : (A → ℕ) → List A → List A
  unfolding insert_asc
  order_asc key [] = []
  order_asc key (x ∷ xs) = insert_asc key x (order_asc key xs)
