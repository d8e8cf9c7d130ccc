-- ===== src/Investigations/Tests.antt =====
-- A run of an investigation that finds nothing, one that a statement interrupts, and the theorem at that.
use middle_east_geopolitic.Common.{
  false, Bool, refl, ◌≡◌, ◌∷◌, [], none, String, ◌+◌, true, if◌then◌else◌, ◌==◌, map, List,
}
use middle_east_geopolitic.Common.Int.{ℤ}
use middle_east_geopolitic.Common.Fixed.{thousandths}
use middle_east_geopolitic.Common.Result.{Result, Error, ok, err}
use middle_east_geopolitic.Common.Rows.{first?, update, select, order_asc, insert_asc}
use middle_east_geopolitic.Casework.Models.{CaseStore}
use middle_east_geopolitic.Investigations.Keywords.{extract_keywords, keep_keywords, find_words}
use middle_east_geopolitic.Investigations.Models.{
  get_steps, get_investigation, InvestigationStore, Investigation, Progress, completed,
}
use middle_east_geopolitic.Investigations.Service.{
  Texts, Statement, begin_step, attempt, run_steps, complete, fail_investigation,
  launch_investigation, execute_investigation,
}
use middle_east_geopolitic.Investigations.Settles.{execute_investigation-settles, IsSettled}

abbrev as_it_is : String → String
as_it_is t = t

keywords :
    extract_keywords as_it_is "did State B's navy enter State A?"
    ≡ "State" ∷ "B's" ∷ "navy" ∷ "enter" ∷ []
unfolding extract_keywords keep_keywords find_words
keywords = refl

abbrev texts : Texts ℤ
texts = record { lower = as_it_is; ilike = λ k t. true; round_2 = λ x. x }

abbrev cases : CaseStore ℤ
cases = record {
  actors = [];
  documents = [];
  events = [];
  event_actors = [];
  locations = [];
  impacts = [];
  claims = [];
  evidence = [];
  reviews = [];
}

abbrev launched : InvestigationStore ℤ
launched =
    (launch_investigation 1 (λ n. 10 + n) "Navy" "did the navy enter?" "analyst" "medium" none
      (record { investigations = []; steps = []; reports = [] })).1

abbrev row : Investigation ℤ
row =
    (launch_investigation 1 (λ n. 10 + n) "Navy" "did the navy enter?" "analyst" "medium" none
      (record { investigations = []; steps = []; reports = [] })).0

-- Every statement is answered, or the second step's first one raises; after one that raised, none is.
abbrev intact : Bool → Statement → Result (Unit {0})
intact true q = err Error.integrity
intact false q = ok tt

abbrev broken : Bool → Statement → Result (Unit {0})
broken true q = err Error.integrity
broken false (begin_step i) = if i == 12 then err Error.integrity else ok tt
broken false _ = ok tt

abbrev statuses : Result (InvestigationStore ℤ) → List Progress
statuses (err e) = []
statuses (ok t) = map (λ x. x.status) t.steps

all_completed :
    statuses (execute_investigation texts intact 50 90 1 [] cases launched)
    ≡ completed ∷ completed ∷ completed ∷ []
unfolding execute_investigation get_investigation first? launch_investigation attempt run_steps
    get_steps complete fail_investigation update select order_asc insert_asc
all_completed = refl

-- The marks of the `except` branch are lost with the transaction.
not_stored : execute_investigation texts broken 50 90 1 [] cases launched ≡ err Error.integrity
unfolding execute_investigation get_investigation first? launch_investigation attempt run_steps
    get_steps complete fail_investigation update select order_asc insert_asc
not_stored = refl

execute_investigation-settles_example :
    (((q : Statement) → intact false q ≡ ok tt)
      → (t : InvestigationStore ℤ) × (execute_investigation texts intact 50 90 1 [] cases launched
          ≡ ok t))
    × ((t : InvestigationStore ℤ)
        → execute_investigation texts intact 50 90 1 [] cases launched ≡ ok t
        → IsSettled 1 t)
unfolding launch_investigation get_investigation first?
execute_investigation-settles_example =
    execute_investigation-settles texts intact 50 90 1 [] cases launched row
      (λ q. (Error.integrity, refl)) refl
