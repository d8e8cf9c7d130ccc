-- ===== src/Scenarios/Engine/CarryForward.antt =====
-- An update without a reply of the model repeats the previous assessment.

-- A text that the engine stores is never the empty one.
use middle_east_geopolitic.Common.{
  List, refl, arith, none, true, false, inr, ℕ, ◌≡◌, inl, str_eq, Bool-cases, some, String, Option,
}
use middle_east_geopolitic.Common.Float.{feq-lt, ≼_trans, clamp, feq, ◌≼◌, IsOrdered, Float}
use middle_east_geopolitic.Scenarios.Engine.{
  log_family_consistency, fallback_update, get_llm_update, assessment_of, update_scenario, or_none,
}
use middle_east_geopolitic.Scenarios.Models.{
  ScenarioFamily, ScenarioStore, Scenario, ScenarioAssessment,
}
use middle_east_geopolitic.Scenarios.Engine.Bounds.{normalize_probability_range-IsRange, IsRange}
use middle_east_geopolitic.Risk.Engine.{or_else, or_text}
use middle_east_geopolitic.Scenarios.Consistency.{normalize_probability_range}
use middle_east_geopolitic.Scenarios.Repository.{insert_assessment, latest_assessment, get_scenario}
use middle_east_geopolitic.Common.Result.{ok}

abbrev pub IsStored : Option String → Type 0
IsStored none = Unit
IsStored (some t) = str_eq t "" ≡ false

or_none-or_text : (t : Option String) → IsStored t → or_none (or_text t "") ≡ t
or_none-or_text none h = refl
or_none-or_text (some t) h = rw (h, h) refl

pub or_none-IsStored : (t : String) → IsStored (or_none t)
or_none-IsStored t = elim (Bool-cases (str_eq t "")) [ inl e ↦ rw e tt | inr e ↦ rw e e ]

module _ {F : Type 0} ⦃fl : Float F⦄ where
  -- The same assessment in all that an analyst reads: the range as equal floats, the rest as it is.
  pub record SameView (a b : ScenarioAssessment F) : Type 0 where
    pub low : feq a.probability_low b.probability_low ≡ true
    pub high : feq a.probability_high b.probability_high ≡ true
    pub confidence : a.confidence ≡ b.confidence
    pub assumptions : a.assumptions ≡ b.assumptions
    pub trigger_events : a.trigger_events ≡ b.trigger_events
    pub leading_indicators : a.leading_indicators ≡ b.leading_indicators
    pub behavior : a.expected_actor_behavior ≡ b.expected_actor_behavior
    pub military : a.military_consequences ≡ b.military_consequences
    pub economic : a.economic_consequences ≡ b.economic_consequences
    pub humanitarian : a.humanitarian_consequences ≡ b.humanitarian_consequences
    pub criteria : a.invalidation_criteria ≡ b.invalidation_criteria

  -- The form of every row that `update_scenario` stores.
  abbrev pub IsStoredRow : ScenarioAssessment F → Type 0
  IsStoredRow a =
      IsRange (a.probability_low, a.probability_high)
      × IsStored a.expected_actor_behavior
      × IsStored a.military_consequences
      × IsStored a.economic_consequences
      × IsStored a.humanitarian_consequences

  module _ (o : IsOrdered F) where
    clamp-keeps : (lo hi x : F) → lo ≼ x → x ≼ hi → feq (clamp lo hi x) x ≡ true
    clamp-keeps lo hi x h k =
        rw (feq-lt o (clamp lo hi x) x)
          (ground (arith, o.lt_irrefl x, o.lt_irrefl hi, o.lt_irrefl lo, o.lt_split lo hi x))

    feq-≼ : (a b c d : F) → feq a c ≡ true → feq b d ≡ true → c ≼ d → a ≼ b
    feq-≼ a b c d h k m =
        let p = rw (feq-lt o a c) at h in
        let q = rw (feq-lt o b d) at k in
        ≼_trans o a c b (ground (arith, p)) (≼_trans o c d b m (ground (arith, q)))

    normalize_probability_range-keeps :
        (low high : F)
        → IsRange (low, high)
        → (feq (normalize_probability_range low high).0 low ≡ true)
          × (feq (normalize_probability_range low high).1 high ≡ true)
    unfolding normalize_probability_range
    normalize_probability_range-keeps low high (a, b, c) =
        let l =
          clamp-keeps (fl.of_ℕ 0) (fl.of_ℕ 100) low a (≼_trans o low high (fl.of_ℕ 100) b c) in
        let h = clamp-keeps (fl.of_ℕ 0) (fl.of_ℕ 100) high (≼_trans o (fl.of_ℕ 0) low high a b) c in
        let e : clamp (fl.of_ℕ 0) (fl.of_ℕ 100) low ≼ clamp (fl.of_ℕ 0) (fl.of_ℕ 100) high =
          feq-≼ _ _ low high l h b in
        rw e (l, h)

    assessment_of-SameView :
        (fresh i assessed_at now : ℕ) (triggered_by : Option String) (a : ScenarioAssessment F)
        → IsStoredRow a
        → SameView
            (assessment_of fresh i assessed_at now triggered_by (fallback_update (some a), none))
            a
    unfolding assessment_of fallback_update
    assessment_of-SameView fresh i assessed_at now triggered_by a (g, b, m, e, u) =
        let n = normalize_probability_range-keeps a.probability_low a.probability_high g in
        record {
          low = n.0;
          high = n.1;
          confidence = refl;
          assumptions = refl;
          trigger_events = refl;
          leading_indicators = refl;
          behavior = or_none-or_text a.expected_actor_behavior b;
          military = or_none-or_text a.military_consequences m;
          economic = or_none-or_text a.economic_consequences e;
          humanitarian = or_none-or_text a.humanitarian_consequences u;
          criteria = refl;
        }

    -- Without a model, an update of a scenario that has a previous assessment as of that time, one of
    -- the form that updates store, succeeds, and the new assessment says what the previous one says.
    pub update_scenario-SameView :
        (version : String) (now : ℕ) (context : Scenario → ℕ → String) (i : ℕ)
        (triggered_by : Option String) (as_of : Option ℕ) (fresh : ℕ) (s : ScenarioStore F)
        (c : Scenario) (previous : ScenarioAssessment F)
        → get_scenario i s ≡ some c
        → latest_assessment i (some (or_else as_of now)) s ≡ some previous
        → IsStoredRow previous
        → (a : ScenarioAssessment F) × (ws : List (ScenarioFamily × ScenarioFamily))
          × (t : ScenarioStore F) × (update_scenario version now context i none triggered_by as_of
                fresh s
              ≡ ok (a, ws, t))
          × SameView a previous
          × IsStoredRow a
    unfolding update_scenario get_llm_update assessment_of fallback_update
    update_scenario-SameView version now context i triggered_by as_of fresh s c previous g l p =
        let a =
          assessment_of fresh i (or_else as_of now) now triggered_by
            (fallback_update (some previous), none) in
        (
          a,
          log_family_consistency c a (insert_assessment a s),
          insert_assessment a s,
          rw (g, update_scenario, l) refl,
          assessment_of-SameView fresh i (or_else as_of now) now triggered_by previous p,
          (
            normalize_probability_range-IsRange o previous.probability_low
                previous.probability_high,
            or_none-IsStored (or_text previous.expected_actor_behavior ""),
            or_none-IsStored (or_text previous.military_consequences ""),
            or_none-IsStored (or_text previous.economic_consequences ""),
            or_none-IsStored (or_text previous.humanitarian_consequences ""),
          ),
        )
