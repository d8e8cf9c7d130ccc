-- ===== src/Scheduler/Service.antt =====
-- src/mei/application/services/scheduler.py: the start and the end of one execution, and a round of the
-- loop. Between the two commits of `_execute_schedule` stands the job, a parameter: it succeeds with a
-- count and a log, or it raises.
use middle_east_geopolitic.Common.{
  not, if◌then◌else◌, zero, ◌&&◌, ◌+◌, none, List, suc, leb, str_eq, false, true, some, ℕ, String,
  Option, Bool,
}
use middle_east_geopolitic.Scheduler.Repository.{
  list_enabled, create_execution, update_execution, get_schedule, get_by_job_type, update_schedule,
  ScheduleStore, JobSchedule,
}
use middle_east_geopolitic.Common.Result.{ok, ◌>>=◌, value_error, or_raise, Result}
use middle_east_geopolitic.Common.Rows.{select}

pub data JobOutcome : Type 0 where
  succeeded : ℕ → String → JobOutcome
  failed : String → JobOutcome

-- `schedule.interval_seconds or 86400`
unfoldable pub interval_of : JobSchedule → ℕ
interval_of c = go c.interval_seconds
  where
    go : Option ℕ → ℕ
    go none = 86400
    go (some zero) = 86400
    go (some (suc n)) = suc n

-- Up to the first commit.
unfoldable pub begin_execution : ℕ → ℕ → JobSchedule → ScheduleStore → ScheduleStore
begin_execution now fresh c s =
    update_schedule c.id
      (record { last_run_at = some now; next_run_at = none; last_status = some "running" })
      (create_execution fresh c now s)

abbrev pub status_of : JobOutcome → String
status_of (succeeded items logs) = "success"
status_of (failed message) = "failed"

abbrev pub close_execution : ℕ → ℕ → JobOutcome → ScheduleStore → ScheduleStore
close_execution fresh completed_at (succeeded items logs) s =
    update_execution fresh completed_at "success" items none logs s
close_execution fresh completed_at (failed message) s =
    update_execution fresh completed_at "failed" 0 (some message) "" s

-- Up to the second commit.
unfoldable pub finish_execution :
    ℕ → ℕ → ℕ → JobOutcome → JobSchedule → ScheduleStore → ScheduleStore
finish_execution now completed_at fresh outcome c s =
    update_schedule c.id
      (record {
        last_run_at = some now;
        next_run_at = some (completed_at + interval_of c);
        last_status = some (status_of outcome);
      })
      (close_execution fresh completed_at outcome s)

abbrev reply_of : JobOutcome → Bool × ℕ × String
reply_of (succeeded items logs) = (true, items, logs)
reply_of (failed message) = (false, 0, "")

-- `_execute_schedule`, with the job's own changes left out: it writes to other tables.
unfoldable pub execute_schedule :
    ℕ
    → ℕ
    → ℕ
    → (JobSchedule → JobOutcome)
    → JobSchedule
    → ScheduleStore
    → (Bool × ℕ × String) × ScheduleStore
execute_schedule now completed_at fresh job c s = (
  reply_of (job c),
  finish_execution now completed_at fresh (job c) c (begin_execution now fresh c s),
)

unfoldable pub trigger_job_now :
    ℕ
    → ℕ
    → ℕ
    → (JobSchedule → JobOutcome)
    → ℕ
    → ScheduleStore
    → Result ((Bool × ℕ × String) × ScheduleStore)
trigger_job_now now completed_at fresh job i s = or_raise (get_schedule i s) value_error >>= λ c.
    ok (execute_schedule now completed_at fresh job c s)

-- Without a schedule of the type, the job runs without a record; where it raises, so does the call.
unfoldable pub trigger_by_type :
    ℕ
    → ℕ
    → ℕ
    → (JobSchedule → JobOutcome)
    → (String → Result (ℕ × String))
    → String
    → ScheduleStore
    → Result ((Bool × ℕ × String) × ScheduleStore)
trigger_by_type now completed_at fresh job run_job kind s = elim (get_by_job_type kind s) [
  | none ↦ run_job kind >>= λ r. ok ((true, r.0, r.1), s)
  | some c ↦ ok (execute_schedule now completed_at fresh job c s)
]

abbrev pub is_running : Option String → Bool
is_running none = false
is_running (some t) = str_eq t "running"

-- `next_run_at is None or next_run_at <= now`
abbrev pub is_reached : Option ℕ → ℕ → Bool
is_reached none now = true
is_reached (some t) now = leb t now

-- The schedules that one round of `_main_scheduler_loop` starts in the background.
unfoldable pub due_schedules : ℕ → ScheduleStore → List JobSchedule
due_schedules now s =
    select (λ c. is_reached c.next_run_at now && not (is_running c.last_status)) (list_enabled s)

-- `_run_due_schedule_safe`: nothing, if the schedule has gone or was disabled meanwhile.
unfoldable pub run_due_schedule_safe :
    ℕ → ℕ → ℕ → (JobSchedule → JobOutcome) → ℕ → ScheduleStore → ScheduleStore
run_due_schedule_safe now completed_at fresh job i s = elim (get_schedule i s) [
  | none ↦ s
  | some c ↦ if c.enabled then (execute_schedule now completed_at fresh job c s).1 else s
]
