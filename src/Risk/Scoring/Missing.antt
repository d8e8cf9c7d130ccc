-- ===== src/Risk/Scoring/Missing.antt =====
-- Missing and stale indicators are left out of a score instead of counting as zero.
use middle_east_geopolitic.Common.{false, ◌≡◌, refl, ap, List, [], ◌∷◌, ◌++◌, arith}
use middle_east_geopolitic.Common.Float.{Float}
use middle_east_geopolitic.Common.Rows.Laws.{select-append}
use middle_east_geopolitic.Risk.Models.{ContributionRecord}
use middle_east_geopolitic.Risk.Scoring.{aggregate_contributions, average, included_only}

module _ {F : Type 0} ⦃fl : Float F⦄ where
  pub included_only-skip :
      (cs ds : List (ContributionRecord F)) (c : ContributionRecord F)
      → c.included ≡ false
      → included_only (cs ++ (c ∷ ds)) ≡ included_only (cs ++ ds)
  unfolding middle_east_geopolitic.Common.Rows.select
  included_only-skip cs ds c h = rw (
    select-append (λ (c : ContributionRecord F). c.included) cs ds,
    select-append (λ (c : ContributionRecord F). c.included) cs (c ∷ ds),
    h,
  )

  -- A record that is not included may stand anywhere in the breakdown, with any weight and values:
  -- base score, confidence and available weight are what they are without it.
  pub aggregate_contributions-skip :
      (cs ds : List (ContributionRecord F)) (c : ContributionRecord F) (total : F)
      → c.included ≡ false
      → aggregate_contributions (cs ++ (c ∷ ds)) total ≡ aggregate_contributions (cs ++ ds) total
  unfolding aggregate_contributions
  aggregate_contributions-skip cs ds c total h =
      ap (λ xs. average xs total) (included_only-skip cs ds c h)
