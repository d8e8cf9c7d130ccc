-- ===== src/Enums.antt =====
-- src/mei/shared/enums.py: the enumerations that the modelled parts use. They are `StrEnum`s, so a
-- member equals another exactly when their texts are equal.
use middle_east_geopolitic.Common.{ℕ, String, Bool, ◌≡◌, true, arith, ◌==◌}

pub data ScopeType : Type 0 where
  country relationship actor conflict global : ScopeType

abbrev pub scope_value : ScopeType → String
scope_value country = "country"
scope_value relationship = "relationship"
scope_value actor = "actor"
scope_value conflict = "conflict"
scope_value global = "global"

-- The members told apart by their position.
abbrev scope_rank : ScopeType → ℕ
scope_rank country = 0
scope_rank relationship = 1
scope_rank actor = 2
scope_rank conflict = 3
scope_rank global = 4

abbrev pub scope_eq : ScopeType → ScopeType → Bool
scope_eq a b = scope_rank a == scope_rank b

pub scope_eq-eq : (a b : ScopeType) → scope_eq a b ≡ true → a ≡ b
scope_eq-eq a b h = ground arith

pub data Trend : Type 0 where
  rising falling stable : Trend

pub data IndicatorNormalizationMethod : Type 0 where
  min_max boolean manual : IndicatorNormalizationMethod

pub data IndicatorDirection : Type 0 where
  positive inverse : IndicatorDirection

pub data RiskApprovalStatus : Type 0 where
  pending approved rejected : RiskApprovalStatus
