-- ===== src/Forecasts/Calibration/Groups.antt =====
-- The groups of src/mei/application/services/calibration.py as lists of lists: how many, how large, and what
-- they hold.
use middle_east_geopolitic.Forecasts.Calibration.{clamp_index, empty_groups, append_at}
use middle_east_geopolitic.Common.{
  false, ◌++◌, leb, ◌==◌, none, if◌then◌else◌, some, Bool, refl, length-append, arith, [], zero,
  ◌+◌, ap, suc, Option, ◌<◌, map, ◌≡◌, ◌∷◌, length, ℕ, List,
}
use middle_east_geopolitic.Common.Int.{negsuc, pos, ℤ}

-- The number of entries in all groups.
abbrev pub size_of : {A : Type 0} → List (List A) → ℕ
size_of [] = 0
size_of (g ∷ gs) = length g + size_of gs

pub append_at-length :
    {A : Type 0} → (i : ℕ) (a : A) (gs : List (List A)) → length (append_at i a gs) ≡ length gs
unfolding append_at
append_at-length i a [] = refl
append_at-length zero a (g ∷ gs) = refl
append_at-length (suc i) a (g ∷ gs) = ap suc (append_at-length i a gs)

pub append_at-size_of :
    {A : Type 0}
    → (i : ℕ) (a : A) (gs : List (List A)) → i < length gs
    → size_of (append_at i a gs) ≡ suc (size_of gs)
unfolding append_at
append_at-size_of i a [] h = omega arith
append_at-size_of zero a (g ∷ gs) h = omega (arith, length-append g (a ∷ []))
append_at-size_of (suc i) a (g ∷ gs) h = omega (arith, append_at-size_of i a gs (omega arith))

pub empty_groups-length : (A : Type 0) (n : ℕ) → length (empty_groups {A = A} n) ≡ n
unfolding empty_groups
empty_groups-length A zero = refl
empty_groups-length A (suc n) = ap suc (empty_groups-length A n)

pub empty_groups-size_of : (A : Type 0) (n : ℕ) → size_of (empty_groups {A = A} n) ≡ 0
unfolding empty_groups
empty_groups-size_of A zero = refl
empty_groups-size_of A (suc n) = omega (arith, empty_groups-size_of A n)

pub clamp_index-bound : (i : ℤ) (last : ℕ) → clamp_index i last < suc last
unfolding clamp_index
clamp_index-bound i last = ground arith

map-length : {A B : Type 0} → (f : A → B) (xs : List A) → length (map f xs) ≡ length xs
map-length f [] = refl
map-length f (x ∷ xs) = ap suc (map-length f xs)

-- The entry with a number, and the group with a number.
abbrev pub get_elem? : {A : Type 0} → List A → ℕ → Option A
get_elem? [] k = none
get_elem? (x ∷ xs) zero = some x
get_elem? (x ∷ xs) (suc k) = get_elem? xs k

abbrev pub group_at : {A : Type 0} → List (List A) → ℕ → List A
group_at [] k = []
group_at (g ∷ gs) zero = g
group_at (g ∷ gs) (suc k) = group_at gs k

pub append_at-group_at :
    {A : Type 0}
    → (i k : ℕ) (a : A) (gs : List (List A)) → i < length gs
    → group_at (append_at i a gs) k ≡ (if i == k then group_at gs k ++ (a ∷ []) else group_at gs k)
unfolding append_at
append_at-group_at i k a [] h = absurd (omega arith)
append_at-group_at zero zero a (g ∷ gs) h = ground arith
append_at-group_at zero (suc k) a (g ∷ gs) h = ground arith
append_at-group_at (suc i) zero a (g ∷ gs) h = ground arith
append_at-group_at (suc i) (suc k) a (g ∷ gs) h =
    ground (arith, append_at-group_at i k a gs (omega arith))

pub empty_groups-group_at : (A : Type 0) (n k : ℕ) → group_at (empty_groups {A = A} n) k ≡ []
unfolding empty_groups
empty_groups-group_at A zero k = refl
empty_groups-group_at A (suc n) zero = refl
empty_groups-group_at A (suc n) (suc k) = empty_groups-group_at A n k

abbrev pub at_least : ℕ → ℤ → Bool
at_least n (pos m) = leb n m
at_least n (negsuc m) = false

pub append_nil : {A : Type 0} → (xs : List A) → xs ++ [] ≡ xs
append_nil [] = refl
append_nil (x ∷ xs) = ap (λ ys. x ∷ ys) (append_nil xs)

pub snoc_append :
    {A : Type 0} → (xs : List A) (a : A) (ys : List A) → (xs ++ (a ∷ [])) ++ ys ≡ xs ++ (a ∷ ys)
snoc_append [] a ys = refl
snoc_append (x ∷ xs) a ys = ap (λ zs. x ∷ zs) (snoc_append xs a ys)
