-- ===== src/Scheduler/Runs.antt =====
-- The scheduler with its background tasks, interleaved in any order: src/mei/application/services/scheduler.py.
-- A task that a round has created waits until it runs; a run stands between the two commits of
-- `_execute_schedule`.
use middle_east_geopolitic.Common.{
  Option, String, ◌≡◌, All, Elem, Bool, true, false, not, ◌&&◌, ◌==◌, ℕ, List, [], ◌∷◌, ◌++◌, map,
  some, none, if◌then◌else◌,
}
use middle_east_geopolitic.Common.Rows.{select}
use middle_east_geopolitic.Scheduler.Repository.{
  new_schedule, JobSchedule, ScheduleStore, Edit, get_schedule, insert_schedule, edit_schedule,
  delete_schedule,
}
use middle_east_geopolitic.Scheduler.Service.{
  JobOutcome, begin_execution, finish_execution, due_schedules,
}

-- A task of `_execute_schedule` after its first commit, with the schedule as it was read.
pub record Run : Type 0 where
  pub execution_id : ℕ
  pub schedule : JobSchedule
  pub started_at : ℕ

-- `looping` is `_running`. `waiting` and `running` are the tasks, `lost` the runs that ended without their
-- second commit.
pub record World : Type 0 where
  pub store : ScheduleStore
  pub looping : Bool
  pub waiting : List ℕ
  pub running : List Run
  pub lost : List Run

abbrev pub is_same_run : Run → Run → Bool
is_same_run r q = q.execution_id == r.execution_id && q.schedule.id == r.schedule.id

unfoldable pub without_run : Run → List Run → List Run
without_run r rs = select (λ q. not (is_same_run r q)) rs

unfoldable pub without_task : ℕ → List ℕ → List ℕ
without_task i [] = []
without_task i (j ∷ js) = elim (j == i) [ true ↦ js | false ↦ j ∷ without_task i js ]

-- `start` and `stop`, which leaves the tasks in the background alone.
abbrev pub start : World → World
start w = record w { looping = true }

abbrev pub stop : World → World
stop w = record w { looping = false }

-- One round of `_main_scheduler_loop`.
unfoldable pub round : ℕ → World → World
round now w = record w { waiting = w.waiting ++ map (λ c. c.id) (due_schedules now w.store) }

-- The first half of `_execute_schedule`.
unfoldable pub begin_run : ℕ → ℕ → JobSchedule → World → World
begin_run now fresh c w = record w {
  store = begin_execution now fresh c w.store;
  running = w.running ++ (record { execution_id = fresh; schedule = c; started_at = now } ∷ []);
}

-- The first half of `_run_due_schedule_safe`: the task ends here if its schedule has gone or is disabled.
unfoldable pub begin_task : ℕ → ℕ → ℕ → World → World
begin_task now fresh i w =
    let w1 = record w { waiting = without_task i w.waiting } in
    elim (get_schedule i w.store) [
      | none ↦ w1
      | some c ↦ if c.enabled then begin_run now fresh c w1 else w1
    ]

-- The second half of `_execute_schedule`.
unfoldable pub end_run : ℕ → JobOutcome → Run → World → World
end_run completed_at outcome r w = record w {
  store = finish_execution r.started_at completed_at r.execution_id outcome r.schedule w.store;
  running = without_run r w.running;
}

-- The second half raises, or the process ends.
unfoldable pub lose_run : Run → World → World
lose_run r w = record w { running = without_run r w.running; lost = w.lost ++ (r ∷ []) }

-- What can happen next. `allowed` says which schedules may be registered and triggered by hand.
pub data Step (allowed : ℕ → Bool) (w : World) : World → Type 0 where
  starts : Step allowed w (start w)
  stops : Step allowed w (stop w)
  checks : (now : ℕ) → w.looping ≡ true → Step allowed w (round now w)
  begins :
      (now fresh i : ℕ)
      → Elem i w.waiting
      → All (λ x. (x.id == fresh) ≡ false) w.store.executions
      → Step allowed w (begin_task now fresh i w)
  forgets : (i : ℕ) → Step allowed w (record w { waiting = without_task i w.waiting })
  triggers :
      (now fresh i : ℕ) (c : JobSchedule)
      → allowed i ≡ true
      → get_schedule i w.store ≡ some c
      → All (λ x. (x.id == fresh) ≡ false) w.store.executions
      → Step allowed w (begin_run now fresh c w)
  ends :
      (completed_at : ℕ) (outcome : JobOutcome) (r : Run)
      → Elem r w.running
      → Step allowed w (end_run completed_at outcome r w)
  loses : (r : Run) → Elem r w.running → Step allowed w (lose_run r w)
  creates :
      (fresh : ℕ) (name job_type : String) (cron : Option String) (interval : Option ℕ)
      (enabled : Bool)
      → allowed fresh ≡ true
      → All (λ d. (d.id == fresh) ≡ false) w.store.schedules
      → Step allowed w (record w {
        store = insert_schedule (new_schedule fresh name job_type cron interval enabled) w.store;
      })
  edits : (i : ℕ) (e : Edit) → Step allowed w (record w { store = edit_schedule i e w.store })
  deletes : (i : ℕ) → Step allowed w (record w { store = delete_schedule i w.store })

pub data Reach (allowed : ℕ → Bool) (w : World) : World → Type 0 where
  here : Reach allowed w w
  next : {u v : World} → Reach allowed w u → Step allowed u v → Reach allowed w v
