-- ===== src/Scheduler/Accounts.antt =====
-- What the scheduler owes to its runs: the background tasks of src/mei/application/services/scheduler.py and
-- the rows that they are still to end.
use middle_east_geopolitic.Common.{
  ◌≡◌, Bool, true, false, ◌||◌, ◌==◌, ℕ, List, [], ◌∷◌, ◌++◌, arith, All, none,
}
use middle_east_geopolitic.Common.Rows.{select}
use middle_east_geopolitic.Scheduler.Repository.{JobSchedule, JobExecution}
use middle_east_geopolitic.Scheduler.Service.{is_running}
use middle_east_geopolitic.Scheduler.Runs.{Run, World, without_run}

abbrev any_schedule : ℕ → List Run → Bool
any_schedule i [] = false
any_schedule i (r ∷ rs) = r.schedule.id == i || any_schedule i rs

abbrev any_execution : ℕ → List Run → Bool
any_execution i [] = false
any_execution i (r ∷ rs) = r.execution_id == i || any_execution i rs

-- A schedule that is marked as running has a run that is under way, or one that was lost.
abbrev pub IsAttended : World → JobSchedule → Type 0
IsAttended w c =
    is_running c.last_status ≡ true
    → (any_schedule c.id w.running || any_schedule c.id w.lost) ≡ true

-- So has an execution without an end.
abbrev pub IsTracked : World → JobExecution → Type 0
IsTracked w x =
    x.completed_at ≡ none → (any_execution x.id w.running || any_execution x.id w.lost) ≡ true

pub record IsAccounted (w : World) : Type 0 where
  pub schedules_lem : All (IsAttended w) w.store.schedules
  pub executions_lem : All (IsTracked w) w.store.executions

pub any_schedule-snoc :
    (i : ℕ) (rs : List Run) (r : Run)
    → any_schedule i (rs ++ (r ∷ [])) ≡ (any_schedule i rs || r.schedule.id == i)
any_schedule-snoc i [] r = ground arith
any_schedule-snoc i (q ∷ rs) r = ground (arith, any_schedule-snoc i rs r)

pub any_execution-snoc :
    (i : ℕ) (rs : List Run) (r : Run)
    → any_execution i (rs ++ (r ∷ [])) ≡ (any_execution i rs || r.execution_id == i)
any_execution-snoc i [] r = ground arith
any_execution-snoc i (q ∷ rs) r = ground (arith, any_execution-snoc i rs r)

-- The other runs stay.
pub any_schedule-without_run :
    (i : ℕ) (r : Run) (rs : List Run)
    → any_schedule i rs ≡ true
    → (any_schedule i (without_run r rs) || r.schedule.id == i) ≡ true
unfolding without_run select
any_schedule-without_run i r [] h = cc
any_schedule-without_run i r (q ∷ rs) h = ground (arith, any_schedule-without_run i r rs)

pub any_execution-without_run :
    (i : ℕ) (r : Run) (rs : List Run)
    → any_execution i rs ≡ true
    → (any_execution i (without_run r rs) || r.execution_id == i) ≡ true
unfolding without_run select
any_execution-without_run i r [] h = cc
any_execution-without_run i r (q ∷ rs) h = ground (arith, any_execution-without_run i r rs)
