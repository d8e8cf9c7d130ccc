-- ===== src/Investigations/Service.antt =====
-- `launch_investigation` and `execute_investigation` of src/mei/application/services/investigations.py. What
-- the database answers to the statements of a run is a parameter.
use middle_east_geopolitic.Common.{
  false, true, Bool, List, Option, String, [], ◌∷◌, ◌++◌, ◌&&◌, some, ◌==◌, ℕ, str_eq,
  if◌then◌else◌, map,
}
use middle_east_geopolitic.Common.Result.{
  Result, Error, ok, err, or_raise, ◌>>=◌, ◌>>◌, value_error,
}
use middle_east_geopolitic.Common.Rows.{update}
use middle_east_geopolitic.Common.Float.{Float}
use middle_east_geopolitic.Casework.Models.{CaseStore}
use middle_east_geopolitic.Ingestion.Models.{Document}
use middle_east_geopolitic.Investigations.Keywords.{extract_keywords}
use middle_east_geopolitic.Investigations.Narratives.{
  search_documents, search_events, search_claims, compare_narratives,
}
use middle_east_geopolitic.Investigations.Models.{
  running, completed, failed, is_open, Findings, Output, found, extracted, compared, no_handler,
  due_to, concluded, InvestigationStep, Investigation, InvestigationBrief, InvestigationStore,
  get_investigation, get_steps, new_investigation, new_step,
}

-- The statements of a run: those before the loop, those of one step, and those after it.
pub data Statement : Type 0 where
  start search store_report finish : Statement
  begin_step end_step : ℕ → Statement

abbrev pub Answers : Type 0
Answers = Statement → Result (Unit {0})

-- What the database answers, in a transaction in which a statement has raised (`true`) or none has.
abbrev pub Database : Type 0
Database = Bool → Answers

-- The libraries' text operations and the rounding that a run takes.
pub record Texts (F : Type 0) : Type 0 where
  pub lower : String → String
  pub ilike : String → String → Bool
  pub round_2 : F → F

module _ {F : Type 0} where
  -- `launch_investigation`: the row and its three steps. The run itself is started as a task.
  unfoldable pub launch_investigation :
      ℕ
      → (ℕ → ℕ)
      → String
      → String
      → String
      → String
      → Option String
      → InvestigationStore F
      → Investigation F × InvestigationStore F
  launch_investigation fresh ids title question requested_by priority assigned_to s =
      let v = new_investigation fresh title question requested_by priority assigned_to in
      (
        v,
        record s {
          investigations = s.investigations ++ (v ∷ []);
          steps =
              s.steps
              ++ (new_step (ids 1) fresh "source_search" 1
                  ∷ new_step (ids 2) fresh "claim_extraction" 2
                  ∷ new_step (ids 3) fresh "narrative_comparison" 3
                  ∷ []);
        },
      )

  abbrev pub output_of : String → Findings F → Output F
  output_of kind f =
      if str_eq kind "source_search"
      then found f.documents f.events
      else if str_eq kind "claim_extraction"
      then extracted f.claims
      else if str_eq kind "narrative_comparison"
      then compared f.comparison
      else no_handler

  abbrev pub change_step :
      ℕ → (InvestigationStep F → InvestigationStep F) → InvestigationStore F → InvestigationStore F
  change_step i f s = record s { steps = update (λ x. x.id == i) f s.steps }

  abbrev pub change_investigation :
      ℕ → (Investigation F → Investigation F) → InvestigationStore F → InvestigationStore F
  change_investigation i f s = record s {
    investigations = update (λ v. v.id == i) f s.investigations;
  }

  abbrev pub started_step : ℕ → InvestigationStep F → InvestigationStep F
  started_step now x = record x { status = running; started_at = some now }

  abbrev pub completed_step : ℕ → Output F → InvestigationStep F → InvestigationStep F
  completed_step now output x = record x {
    status = completed;
    output = output;
    completed_at = some now;
  }

  -- A statement that raises ends the `try`, with the tables as they are then.
  abbrev pub after :
      Result (Unit {0})
      → InvestigationStore F
      → Result (Unit {0}) × InvestigationStore F
      → Result (Unit {0}) × InvestigationStore F
  after (err e) s rest = (err e, s)
  after (ok _) s rest = rest

  -- The loop over the steps: how it ended, and the tables then.
  unfoldable pub run_steps :
      Answers
      → ℕ
      → Findings F
      → List (InvestigationStep F)
      → InvestigationStore F
      → Result (Unit {0}) × InvestigationStore F
  run_steps db now f [] s = (ok tt, s)
  run_steps db now f (x ∷ xs) s =
      let s1 = change_step x.id (started_step now) s in
      let s2 = change_step x.id (completed_step now (output_of x.step_type f)) s1 in
      let rest = run_steps db now f xs s2 in
      after (db (begin_step x.id)) s1 (after (db (end_step x.id)) s2 rest)

  abbrev pub concluded_row : ℕ → Findings F → Option ℕ → Investigation F → Investigation F
  concluded_row now f report v = record v {
    status = completed;
    completed_at = some now;
    result = some (concluded f);
    confidence = some f.comparison.confidence;
    report_id = report;
  }

  abbrev pub brief_of : ℕ → Investigation F → Findings F → InvestigationBrief F
  brief_of fresh v f = record { id = fresh; title = v.title; question = v.question; findings = f }

  -- What follows the loop: the investigation is completed, and its report stored.
  unfoldable pub complete :
      Answers
      → ℕ
      → ℕ
      → ℕ
      → Investigation F
      → Findings F
      → InvestigationStore F
      → Result (Unit {0}) × InvestigationStore F
  complete db now fresh i v f s =
      after (db store_report) (change_investigation i (concluded_row now f v.report_id) s) (
        ok tt,
        change_investigation i (concluded_row now f (some fresh))
            (record s { reports = s.reports ++ (brief_of fresh v f ∷ []) }),
      )

  abbrev pub failed_row : ℕ → Error → Investigation F → Investigation F
  failed_row now e v = record v {
    status = failed;
    completed_at = some now;
    result = some (due_to e);
  }

  abbrev pub failed_step : ℕ → Error → InvestigationStep F → InvestigationStep F
  failed_step now e x = record x { status = failed; completed_at = some now; error = some e }

  -- `except Exception`
  unfoldable pub fail_investigation : ℕ → Error → ℕ → InvestigationStore F → InvestigationStore F
  fail_investigation now e i s = record s {
    investigations = update (λ v. v.id == i) (failed_row now e) s.investigations;
    steps = update (λ x. x.investigation_id == i && is_open x.status) (failed_step now e) s.steps;
  }

  abbrev pub caught : ℕ → ℕ → Result (Unit {0}) × InvestigationStore F → InvestigationStore F
  caught now i (err e, s) = fail_investigation now e i s
  caught now i (ok _, s) = s

  abbrev pub has_raised : Result (Unit {0}) × InvestigationStore F → Bool
  has_raised (err e, s) = true
  has_raised (ok _, s) = false

  abbrev pub and_complete :
      Answers
      → ℕ
      → ℕ
      → ℕ
      → Investigation F
      → Findings F
      → Result (Unit {0}) × InvestigationStore F
      → Result (Unit {0}) × InvestigationStore F
  and_complete db now fresh i v f (err e, s) = (err e, s)
  and_complete db now fresh i v f (ok _, s) = complete db now fresh i v f s

  -- The body of the `try`, on what the searches find.
  unfoldable pub attempt :
      Answers
      → ℕ
      → ℕ
      → ℕ
      → Investigation F
      → Findings F
      → InvestigationStore F
      → Result (Unit {0}) × InvestigationStore F
  attempt db now fresh i v f s =
      after (db search) s (and_complete db now fresh i v f (run_steps db now f (get_steps i s) s))

  abbrev pub started_row : ℕ → Investigation F → Investigation F
  started_row now v = record v { status = running; started_at = some now }

module _ {F : Type 0} ⦃fl : Float F⦄ where
  unfoldable pub investigate : Texts F → String → List Document → CaseStore F → Findings F
  investigate w question documents cases =
      let keywords = extract_keywords w.lower question in
      let events = search_events w.ilike keywords cases in
      let claims = search_claims w.ilike keywords (map (λ e. e.id) events) cases in
      record {
        documents = search_documents w.ilike keywords documents;
        events = events;
        claims = claims;
        comparison = compare_narratives w.round_2 claims cases;
      }

  -- `execute_investigation`. A statement outside the `try` that raises ends the run.
  unfoldable pub execute_investigation :
      Texts F
      → Database
      → ℕ
      → ℕ
      → ℕ
      → List Document
      → CaseStore F
      → InvestigationStore F
      → Result (InvestigationStore F)
  execute_investigation w db now fresh i documents cases s =
      or_raise (get_investigation i s) value_error >>= λ v.
      let f = investigate w v.question documents cases in
      let s1 = change_investigation i (started_row now) s in
      let p = attempt (db false) now fresh i v f s1 in
      db false start >> (db (has_raised p) finish >> ok (caught now i p))
