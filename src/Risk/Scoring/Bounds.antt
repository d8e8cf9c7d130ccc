-- ===== src/Risk/Scoring/Bounds.antt =====
-- The ranges of the scores, and what a score does not depend on.
use middle_east_geopolitic.Common.{Bool, true, false, List, arith, if◌then◌else◌, map}
use middle_east_geopolitic.Common.Int.{ℤ, pos, negsuc, ◌≤ℤ◌, ◌+ℤ◌, abs_diff}
use middle_east_geopolitic.Common.Float.{Float, fle, clamp, IsOrdered, ◌≼◌, clamp_bounds, lt_asymm}
use middle_east_geopolitic.Risk.Models.{ContributionRecord}
use middle_east_geopolitic.Risk.Scoring.{
  aggregate_contributions, included_only, raw_score, raw_confidence, clamp_score, clamp_adjustment,
}

pub clamp_score_bounds : (x : ℤ) → (pos 0 ≤ℤ clamp_score x) × (clamp_score x ≤ℤ pos 100)
clamp_score_bounds x = ground arith

pub clamp_adjustment_bounds :
    (x : ℤ) → (negsuc 9 ≤ℤ clamp_adjustment x) × (clamp_adjustment x ≤ℤ pos 10)
clamp_adjustment_bounds x = ground arith

-- Clamping the sum never moves a score within 0 to 100 by more than the adjustment may.
pub clamp_score_near :
    (base adj : ℤ)
    → pos 0 ≤ℤ base
    → base ≤ℤ pos 100
    → negsuc 9 ≤ℤ adj
    → adj ≤ℤ pos 10
    → Prim.Native.Nat.◌≤◌ (abs_diff (clamp_score (base +ℤ adj)) base) 10
clamp_score_near base adj h k l m = ground arith

module _ {F : Type 0} ⦃fl : Float F⦄ (o : IsOrdered F) where
  -- A base score in 0 to 100 and a confidence in 0 to 1.
  abbrev pub IsScore : ℤ × F × F → Type 0
  IsScore r = (pos 0 ≤ℤ r.0) × (r.0 ≤ℤ pos 100) × (fl.of_ℕ 0 ≼ r.1) × (r.1 ≼ fl.of_ℕ 1)

  clamped-IsScore : (x : ℤ) (c a : F) → IsScore (clamp_score x, clamp (fl.of_ℕ 0) (fl.of_ℕ 1) c, a)
  clamped-IsScore x c a =
      let (l, h) = clamp_score_bounds x in
      let (k, m) =
        clamp_bounds o (fl.of_ℕ 0) (fl.of_ℕ 1) c (lt_asymm o _ _ (o.of_ℕ-lt 0 1 (omega arith))) in
      (l, h, k, m)

  average-IsScore :
      (cs : List (ContributionRecord F)) (available total : F) (b : Bool)
      → IsScore (
          if b then (pos 0, fl.of_ℕ 0, fl.of_ℕ 0) else (
            clamp_score (raw_score cs available),
            clamp (fl.of_ℕ 0) (fl.of_ℕ 1) (raw_confidence cs available total),
            available,
          ))
  average-IsScore cs available total true = (
    omega arith,
    omega arith,
    o.lt_irrefl (fl.of_ℕ 0),
    lt_asymm o _ _ (o.of_ℕ-lt 0 1 (omega arith)),
  )
  average-IsScore cs available total false =
      clamped-IsScore (raw_score cs available) (raw_confidence cs available total) available

  -- Whatever the records and their weights, the base score lies in 0 to 100 and the confidence in
  -- 0 to 1.
  pub aggregate_contributions-IsScore :
      (cs : List (ContributionRecord F)) (total : F) → IsScore (aggregate_contributions cs total)
  unfolding aggregate_contributions
  aggregate_contributions-IsScore cs total =
      let available = fl.sum (map (λ c. c.weight) (included_only cs)) in
      average-IsScore (included_only cs) available total (fle available (fl.of_ℕ 0))
