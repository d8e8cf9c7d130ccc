-- ===== src/Pipeline/Counts.antt =====
-- What the counts of the jobs of pipeline_jobs.py say of the tables.
use middle_east_geopolitic.Common.{
  ◌≡◌, ◌+◌, length-append, ◌++◌, ◌∷◌, [], refl, ap, sym, ◌∙◌, arith, length, subst, true, false,
  some, none, List, Option, String, ℕ, if◌then◌else◌,
}
use mathlib.Core.List.{append-nil, append_assoc}
use middle_east_geopolitic.Common.Float.{Float}
use middle_east_geopolitic.Common.Result.{Result, ok, err}
use middle_east_geopolitic.Risk.Models.{RiskAssessment, RiskDefinition, RiskStore}
use middle_east_geopolitic.Risk.Llm.{Llm, Settings}
use middle_east_geopolitic.Risk.Engine.{calculate}
use middle_east_geopolitic.Risk.Engine.Writes.{calculate-Written, Written}
use middle_east_geopolitic.Scenarios.Engine.{ScenarioLlm}
use middle_east_geopolitic.Scenarios.Engine.Writes.{update_scenario-appends}
use middle_east_geopolitic.Scenarios.Models.{
  ScenarioFamily, Scenario, ScenarioAssessment, ScenarioStore,
}
use middle_east_geopolitic.Relationships.Service.{Relationship, RelationshipStore}
use middle_east_geopolitic.Pipeline.Jobs.{
  Tally, Collation, calculated, covers_relationships, risk_request, recalculate_one,
  recalculate_definitions, recalculate_relationships, risk_recalculation, updated,
  evaluate_scenarios, scenario_evaluation,
}

-- The second list is the first one with that many more entries at its end.
abbrev pub Grows : {A : Type 0} → List A → List A → ℕ → ℕ → Type 0
Grows {A = A} xs ys n m = (zs : List A) × (ys ≡ xs ++ zs) × (m ≡ n + length zs)

grow_none : {A : Type 0} (xs : List A) (n : ℕ) → Grows xs xs n n
grow_none xs n = ([], sym (append-nil {0} xs), omega arith)

grow_one : {A : Type 0} (xs : List A) (x : A) (n : ℕ) → Grows xs (xs ++ (x ∷ [])) n (n + 1)
grow_one xs x n = (x ∷ [], refl, omega arith)

grow_trans :
    {A : Type 0} (xs ys zs : List A) (n m k : ℕ)
    → Grows xs ys n m
    → Grows ys zs m k
    → Grows xs zs n k
grow_trans xs ys zs n m k (us, p, h) (vs, q, g) = (
  us ++ vs,
  q ∙ (ap (λ ws. ws ++ vs) p ∙ append_assoc {0} xs us vs),
  omega (arith, length-append us vs),
)

module _ {F : Type 0} where
  -- From one count and tables to another: as many assessments were appended as were counted.
  abbrev pub RisksGrow : Tally (RiskStore F) → Tally (RiskStore F) → Type 0
  RisksGrow (n, s) (m, t) = Grows s.assessments t.assessments n m

  abbrev pub ScenariosGrow : Tally (ScenarioStore F) → Tally (ScenarioStore F) → Type 0
  ScenariosGrow (n, s) (m, t) = Grows s.assessments t.assessments n m × (t.scenarios ≡ s.scenarios)

module _ {F : Type 0} ⦃fl : Float F⦄ where
  calculated-RisksGrow :
      (cfg : Settings) (n : ℕ) (s : RiskStore F) (r : Result (RiskAssessment F)) (t : RiskStore F)
      → Written cfg true s r t
      → RisksGrow (n, s) (calculated n (r, t))
  calculated-RisksGrow cfg n s (err e) t w =
      subst (λ (u : RiskStore F). RisksGrow (n, s) (n, u)) (sym w) (grow_none s.assessments n)
  calculated-RisksGrow cfg n s (ok a) t w =
      subst (λ (u : RiskStore F). RisksGrow (n, s) (n + 1, u)) (sym w) (grow_one s.assessments a n)

  recalculate_one-RisksGrow :
      (cfg : Settings) (now : ℕ) (llm : Option (Llm F)) (ids : ℕ → ℕ → ℕ) (r : Relationship)
      (d : RiskDefinition) (t : Tally (RiskStore F))
      → RisksGrow t (recalculate_one cfg now llm ids r d t)
  recalculate_one-RisksGrow cfg now llm ids r d (n, s) =
      let q = risk_request llm (ids r.id d.id) d r in
      elim (covers_relationships d)
        as (λ b. RisksGrow (n, s) (if b then calculated n (calculate cfg now q s) else (n, s))) [
          | false ↦ grow_none s.assessments n
          | true ↦
              calculated-RisksGrow cfg n s (calculate cfg now q s).0 (calculate cfg now q s).1
                (calculate-Written cfg now q s)
        ]

  recalculate_definitions-RisksGrow :
      (cfg : Settings) (now : ℕ) (llm : Option (Llm F)) (ids : ℕ → ℕ → ℕ) (r : Relationship)
      (ds : List RiskDefinition) (t : Tally (RiskStore F))
      → RisksGrow t (recalculate_definitions cfg now llm ids r ds t)
  unfolding recalculate_definitions
  recalculate_definitions-RisksGrow cfg now llm ids r [] t = grow_none t.1.assessments t.0
  recalculate_definitions-RisksGrow cfg now llm ids r (d ∷ ds) t =
      grow_trans _ _ _ _ _ _ (recalculate_one-RisksGrow cfg now llm ids r d t) (
        recalculate_definitions-RisksGrow cfg now llm ids r ds
          (recalculate_one cfg now llm ids r d t))

  recalculate_relationships-RisksGrow :
      (cfg : Settings) (now : ℕ) (llm : Option (Llm F)) (ids : ℕ → ℕ → ℕ) (ds : List RiskDefinition)
      (rs : List Relationship) (t : Tally (RiskStore F))
      → RisksGrow t (recalculate_relationships cfg now llm ids ds rs t)
  unfolding recalculate_relationships
  recalculate_relationships-RisksGrow cfg now llm ids ds [] t = grow_none t.1.assessments t.0
  recalculate_relationships-RisksGrow cfg now llm ids ds (r ∷ rs) t =
      grow_trans _ _ _ _ _ _ (recalculate_definitions-RisksGrow cfg now llm ids r ds t) (
        recalculate_relationships-RisksGrow cfg now llm ids ds rs
          (recalculate_definitions cfg now llm ids r ds t))

  updated-ScenariosGrow :
      (n : ℕ) (s : ScenarioStore F)
      (r : Result (ScenarioAssessment F × List (ScenarioFamily × ScenarioFamily) × ScenarioStore F))
      → ((a : ScenarioAssessment F) (ws : List (ScenarioFamily × ScenarioFamily))
            (t : ScenarioStore F)
          → r ≡ ok (a, ws, t)
          → t ≡ record s { assessments = s.assessments ++ (a ∷ []) })
      → ScenariosGrow (n, s) (updated (n, s) r)
  updated-ScenariosGrow n s (err e) w = (grow_none s.assessments n, refl)
  updated-ScenariosGrow n s (ok (a, ws, t)) w =
      subst (λ (u : ScenarioStore F). ScenariosGrow (n, s) (n + 1, u)) (sym (w a ws t refl))
        (grow_one s.assessments a n, refl)

  evaluate_scenarios-ScenariosGrow :
      (version : String) (now : ℕ) (context : Scenario → ℕ → String) (llm : Option (ScenarioLlm F))
      (ids : ℕ → ℕ) (cs : List Scenario) (t : Tally (ScenarioStore F))
      → ScenariosGrow t (evaluate_scenarios version now context llm ids cs t)
  unfolding evaluate_scenarios
  evaluate_scenarios-ScenariosGrow version now context llm ids [] t =
      (grow_none t.1.assessments t.0, refl)
  evaluate_scenarios-ScenariosGrow version now context llm ids (c ∷ cs) (n, s) =
      let (g, p) = updated-ScenariosGrow n s _ (λ a ws t h.
        (update_scenario-appends version now context c.id llm (some "scheduler") none (ids c.id) s t
          a ws h).0) in
      let (k, q) = evaluate_scenarios-ScenariosGrow version now context llm ids cs _ in
      (grow_trans _ _ _ _ _ _ g k, q ∙ p)

  -- Whatever the models reply and whichever items fail, the counts that the jobs of risks and of
  -- scenarios report are the numbers of assessments that they append; earlier assessments and the
  -- scenarios stay as they are.
  pub jobs-count :
      (collate : Collation) (cfg : Settings) (version : String) (now : ℕ) (llm : Option (Llm F))
      (context : Scenario → ℕ → String) (model : Option (ScenarioLlm F)) (pair_ids : ℕ → ℕ → ℕ)
      (ids : ℕ → ℕ) (relations : RelationshipStore F) (risks : RiskStore F)
      (scenarios : ScenarioStore F)
      → RisksGrow (0, risks) (risk_recalculation collate cfg now llm pair_ids relations risks)
        × ScenariosGrow (0, scenarios) (scenario_evaluation version now context model ids scenarios)
  unfolding risk_recalculation scenario_evaluation
  jobs-count collate cfg version now llm context model pair_ids ids relations risks scenarios = (
    recalculate_relationships-RisksGrow cfg now llm pair_ids _ _ (0, risks),
    evaluate_scenarios-ScenariosGrow version now context model ids _ (0, scenarios),
  )
