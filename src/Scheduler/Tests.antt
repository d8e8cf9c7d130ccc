-- ===== src/Scheduler/Tests.antt =====
-- Runs of the scheduler on a small table, and the theorems at those inputs.
use middle_east_geopolitic.Scheduler.Repository.{
  get_schedule, update_execution, create_execution, update_schedule, list_enabled, JobSchedule,
  ScheduleStore,
}
use middle_east_geopolitic.Common.{
  inl, ℕ, ◌≢◌, arith, false, refl, true, ◌≡◌, some, ◌==◌, [], none, All, ◌∷◌,
}
use middle_east_geopolitic.Scheduler.Service.{
  finish_execution, execute_schedule, begin_execution, succeeded, JobOutcome, due_schedules,
  interval_of,
}
use middle_east_geopolitic.Common.Rows.{first?, update, select}
use middle_east_geopolitic.Scheduler.Runs.{
  World, Run, Reach, here, next, starts, checks, begins, loses, start, round, begin_task, begin_run,
  lose_run, without_task, without_run,
}
use middle_east_geopolitic.Scheduler.Attended.{Reach-IsAccounted}
use middle_east_geopolitic.Scheduler.Stuck.{IsStuck, Reach-IsStuck}
use middle_east_geopolitic.Scheduler.Loop.{execute_schedule-waits}
use middle_east_geopolitic.Scheduler.Accounts.{IsAccounted}

abbrev news : JobSchedule
news = record {
  id = 1;
  name = "News";
  job_type = "daily_news_scraping";
  cron_expression = none;
  interval_seconds = some 3600;
  enabled = true;
  last_run_at = none;
  next_run_at = none;
  last_status = some "idle";
}

abbrev table : ScheduleStore
table = record { schedules = news ∷ []; executions = [] }

abbrev job : JobSchedule → JobOutcome
job c = succeeded 12 "done"

first_round : due_schedules 100 table ≡ news ∷ []
unfolding due_schedules list_enabled select
first_round = refl

-- While the job runs no round starts it.
running_round : due_schedules 100 (begin_execution 100 5 news table) ≡ []
unfolding due_schedules list_enabled select begin_execution update_schedule create_execution update
running_round = refl

execute_schedule-waits_example :
    All
      (λ d. (d.id == news.id) ≡ false)
      (due_schedules 3700 (execute_schedule 100 130 5 job news table).1)
unfolding interval_of
execute_schedule-waits_example = execute_schedule-waits 100 130 5 3700 job news table (omega arith)

next_round : due_schedules 3730 (execute_schedule 100 130 5 job news table).1 ≢ []
unfolding due_schedules list_enabled select execute_schedule finish_execution begin_execution
    update_schedule create_execution update_execution update interval_of
next_round p = cc

abbrev quiet : World
quiet = record { store = table; looping = false; waiting = []; running = []; lost = [] }

abbrev checked : World
checked = round 100 (start quiet)

abbrev first_run : Run
first_run = record { execution_id = 5; schedule = news; started_at = 100 }

abbrev under_way : World
under_way = begin_task 100 5 1 checked

abbrev broken : World
broken = lose_run first_run under_way

-- The round at 100 starts the schedule, its run is lost, and the round a day later starts nothing.
broken_rounds : (broken.lost ≡ first_run ∷ []) × ((round 86500 broken).waiting ≡ [])
unfolding round begin_task begin_run lose_run without_task without_run due_schedules list_enabled
    select get_schedule first? begin_execution update_schedule create_execution update
broken_rounds = (refl, refl)

quiet-IsAccounted : IsAccounted quiet
quiet-IsAccounted = record { schedules_lem = ((λ e. cc), tt); executions_lem = tt }

to_broken : Reach (λ i. true) quiet broken
unfolding round begin_task begin_run without_task due_schedules list_enabled select get_schedule
    first? begin_execution update_schedule create_execution update
to_broken =
    next (next (next (next here starts) (checks 100 refl)) (begins 100 5 1 (inl refl) tt))
      (loses first_run (inl refl))

Reach-IsAccounted_example : IsAccounted broken
Reach-IsAccounted_example = Reach-IsAccounted quiet-IsAccounted to_broken

broken-IsStuck : IsStuck 1 broken
unfolding round begin_task begin_run lose_run without_task without_run due_schedules list_enabled
    select get_schedule first? begin_execution update_schedule create_execution update
broken-IsStuck = record { marked_lem = ((λ e. refl), tt); waiting_lem = tt; running_lem = tt }

Reach-IsStuck_example :
    IsStuck 1 (round 86500 broken)
    × ((now : ℕ) → All (λ d. (d.id == 1) ≡ false) (due_schedules now (round 86500 broken).store))
unfolding lose_run begin_task get_schedule first? round begin_run
Reach-IsStuck_example =
    Reach-IsStuck {v = round 86500 broken} broken-IsStuck (next here (checks 86500 refl))
