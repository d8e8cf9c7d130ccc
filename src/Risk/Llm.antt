-- ===== src/Risk/Llm.antt =====
-- src/mei/application/services/risk_engine.py: the adjustment that a language model may recommend,
-- `RiskEngine._get_llm_adjustment`. The model is a parameter: a function from what the prompt is
-- rendered from to a reply or an exception.
use Prim.Native.String.{◌++◌ as str_append}
use middle_east_geopolitic.Common.{ℕ, String, Option, none, some, List, []}
use middle_east_geopolitic.Common.Int.{ℤ, pos}
use middle_east_geopolitic.Common.Result.{Error, llm_configuration, llm_output, Result, ok, err}
use middle_east_geopolitic.Risk.Models.{ContributionRecord}
use middle_east_geopolitic.Risk.Scoring.{clamp_adjustment}

-- The settings that the engine reads (src/mei/shared/config.py).
pub record Settings : Type 0 where
  pub llm_provider : String
  pub llm_model : String
  pub llm_secondary_model : String
  pub score_delta_threshold : ℕ
  pub agreement_tolerance : ℕ

-- `RiskAdjustmentRecommendation`
pub record Recommendation (F : Type 0) : Type 0 where
  pub recommended_adjustment : ℤ
  pub rationale : List String
  pub counter_indicators : List String
  pub confidence : F

-- What `_build_llm_input` renders into the prompt.
pub record LlmInput (F : Type 0) : Type 0 where
  pub definition_code : String
  pub base_score : ℤ
  pub contributions : List (ContributionRecord F)
  pub previous_score : Option ℤ

-- `llm.generate_structured`: a reply or an exception.
abbrev pub Llm : Type 0 → Type 0
Llm F = LlmInput F → Result (Recommendation F)

-- What `_get_llm_adjustment` returns; the rationale goes only into the explanation.
pub record Adjustment : Type 0 where
  pub adjustment : ℤ
  pub rationale : List String
  pub counter_indicators : List String
  pub model_version : Option String

abbrev pub no_adjustment : Adjustment
no_adjustment = record {
  adjustment = pos 0;
  rationale = [];
  counter_indicators = [];
  model_version = none;
}

abbrev pub prompt_version : String
prompt_version = "risk_adjustment_v1"

-- f"{provider}:{model}:{PROMPT_VERSION}"
unfoldable pub model_version_of : Settings → String
model_version_of cfg =
    str_append cfg.llm_provider
      (str_append ":" (str_append cfg.llm_model (str_append ":" prompt_version)))

-- The `except` clause catches two classes and lets the others through.
abbrev pub on_llm_error : Error → Result Adjustment
on_llm_error llm_configuration = ok no_adjustment
on_llm_error llm_output = ok no_adjustment
on_llm_error e = err e

module _ {F : Type 0} where
  abbrev pub clamped : Settings → Result (Recommendation F) → Result Adjustment
  clamped cfg (ok r) = ok (record {
    adjustment = clamp_adjustment r.recommended_adjustment;
    rationale = r.rationale;
    counter_indicators = r.counter_indicators;
    model_version = some (model_version_of cfg);
  })
  clamped cfg (err e) = on_llm_error e

  -- `_get_llm_adjustment`, or the values that stand without a model.
  unfoldable pub get_llm_adjustment : Settings → Option (Llm F) → LlmInput F → Result Adjustment
  get_llm_adjustment cfg none input = ok no_adjustment
  get_llm_adjustment cfg (some llm) input = clamped cfg (llm input)
