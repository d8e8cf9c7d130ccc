-- ===== src/Scheduler/Attended.antt =====
-- Who is still to end what is marked as running, however rounds, tasks and triggers interleave.
use middle_east_geopolitic.Common.{
  ◌≡◌, refl, All, All-impl, All-append, Bool, true, false, ◌==◌, ℕ, arith, some, none,
  if◌then◌else◌,
}
use middle_east_geopolitic.Common.Rows.{update}
use middle_east_geopolitic.Common.Rows.Laws.{All-update, All-select}
use middle_east_geopolitic.Common.Rows.First.{All-update_two, All-update_either}
use middle_east_geopolitic.Scheduler.Repository.{
  JobSchedule, JobExecution, get_schedule, insert_schedule, edit_schedule, edited, delete_schedule,
  create_execution, update_execution, update_schedule,
}
use middle_east_geopolitic.Scheduler.Service.{
  status_of, JobOutcome, succeeded, failed, begin_execution, finish_execution, close_execution,
  is_running,
}
use middle_east_geopolitic.Scheduler.Loop.{close_execution-schedules}
use middle_east_geopolitic.Scheduler.Runs.{
  Run, World, Step, starts, stops, checks, begins, forgets, triggers, ends, loses, creates, edits,
  deletes, Reach, here, next, without_run, without_task, round, begin_run, begin_task, end_run,
  lose_run,
}
use middle_east_geopolitic.Scheduler.Accounts.{
  IsAttended, IsTracked, IsAccounted, any_schedule-snoc, any_execution-snoc,
  any_schedule-without_run, any_execution-without_run,
}

begin_run-IsAccounted :
    (now fresh : ℕ) (c : JobSchedule) (w : World)
    → IsAccounted w
    → IsAccounted (begin_run now fresh c w)
unfolding begin_run begin_execution update_schedule create_execution
begin_run-IsAccounted now fresh c w h =
    let r : Run = record { execution_id = fresh; schedule = c; started_at = now } in
    record {
      schedules_lem =
          All-update_two (IsAttended (begin_run now fresh c w)) (λ (d : JobSchedule). d.id == c.id)
            _ w.store.schedules
            (All-impl _ _
              (λ d k. (
                (λ e. ground (arith, k e, any_schedule-snoc d.id w.running r)),
                (λ m e. ground (arith, m, any_schedule-snoc d.id w.running r)),
              ))
              w.store.schedules h.schedules_lem);
      executions_lem =
          All-append _ w.store.executions _
            (All-impl _ _ (λ x k e. ground (arith, k e, any_execution-snoc x.id w.running r))
              w.store.executions h.executions_lem)
            ((λ e. ground (arith, any_execution-snoc fresh w.running r)), tt);
    }

begin_task-IsAccounted :
    (now fresh i : ℕ) (w : World) → IsAccounted w → IsAccounted (begin_task now fresh i w)
unfolding begin_task
begin_task-IsAccounted now fresh i w h =
    let w1 = record w { waiting = without_task i w.waiting } in
    let h1 : IsAccounted w1 = record {
      schedules_lem = h.schedules_lem;
      executions_lem = h.executions_lem;
    } in
    elim (get_schedule i w.store)
      as (λ found.
        IsAccounted (elim found [
          | none ↦ w1
          | some c ↦ if c.enabled then begin_run now fresh c w1 else w1
        ])) [
          | none ↦ h1
          | some c ↦
              elim c.enabled as (λ b. IsAccounted (if b then begin_run now fresh c w1 else w1)) [
                | true ↦ begin_run-IsAccounted now fresh c w1 h1
                | false ↦ h1
              ]
        ]

ended_execution :
    (r : Run) (w : World) (f : JobExecution → JobExecution)
    → ((x : JobExecution) → (f x).completed_at ≡ none → true ≡ false)
    → All (IsTracked w) w.store.executions
    → All
        (IsTracked (record w { running = without_run r w.running }))
        (update (λ (x : JobExecution). x.id == r.execution_id) f w.store.executions)
ended_execution r w f stop_it h =
    All-update_either (IsTracked (record w { running = without_run r w.running }))
      (λ (x : JobExecution). x.id == r.execution_id) f w.store.executions
      (All-impl _ _
        (λ x k. (
          (λ m e. ground (arith, m, k e, any_execution-without_run x.id r w.running)),
          (λ m e. cc (stop_it x e)),
        ))
        w.store.executions h)

close_execution-IsTracked :
    (completed_at : ℕ) (outcome : JobOutcome) (r : Run) (w : World)
    → All (IsTracked w) w.store.executions
    → All
        (IsTracked (record w { running = without_run r w.running }))
        (close_execution r.execution_id completed_at outcome w.store).executions
unfolding update_execution
close_execution-IsTracked completed_at (succeeded items logs) r w h =
    ended_execution r w _ (λ x e. cc) h
close_execution-IsTracked completed_at (failed message) r w h = ended_execution r w _ (λ x e. cc) h

ended_status : (outcome : JobOutcome) → is_running (some (status_of outcome)) ≡ false
ended_status (succeeded items logs) = refl
ended_status (failed message) = refl

end_run-IsAccounted :
    (completed_at : ℕ) (outcome : JobOutcome) (r : Run) (w : World)
    → IsAccounted w
    → IsAccounted (end_run completed_at outcome r w)
unfolding end_run finish_execution update_schedule
end_run-IsAccounted completed_at outcome r w h = record {
  schedules_lem = rw (close_execution-schedules r.execution_id completed_at outcome w.store) (
      All-update_either (IsAttended (record w { running = without_run r w.running }))
        (λ (d : JobSchedule). d.id == r.schedule.id) _ w.store.schedules
        (All-impl _ _
          (λ d k. (
            (λ m e. ground (arith, m, k e, any_schedule-without_run d.id r w.running)),
            (λ m e. cc (ended_status outcome, e)),
          ))
          w.store.schedules h.schedules_lem));
  executions_lem = close_execution-IsTracked completed_at outcome r w h.executions_lem;
}

lose_run-IsAccounted : (r : Run) (w : World) → IsAccounted w → IsAccounted (lose_run r w)
unfolding lose_run
lose_run-IsAccounted r w h = record {
  schedules_lem =
      All-impl _ _
        (λ d k e.
          ground (
            arith,
            k e,
            any_schedule-without_run d.id r w.running,
            any_schedule-snoc d.id w.lost r,
          ))
        w.store.schedules h.schedules_lem;
  executions_lem =
      All-impl _ _
        (λ x k e. ground (
          arith,
          k e,
          any_execution-without_run x.id r w.running,
          any_execution-snoc x.id w.lost r,
        ))
        w.store.executions h.executions_lem;
}

-- Every step keeps the accounts.
Step-IsAccounted :
    {allowed : ℕ → Bool} {w v : World} → Step allowed w v → IsAccounted w → IsAccounted v
unfolding round insert_schedule edit_schedule delete_schedule
Step-IsAccounted (starts) h = record {
  schedules_lem = h.schedules_lem;
  executions_lem = h.executions_lem;
}
Step-IsAccounted (stops) h = record {
  schedules_lem = h.schedules_lem;
  executions_lem = h.executions_lem;
}
Step-IsAccounted (checks now l) h = record {
  schedules_lem = h.schedules_lem;
  executions_lem = h.executions_lem;
}
Step-IsAccounted {w = w} (begins now fresh i m k) h = begin_task-IsAccounted now fresh i w h
Step-IsAccounted (forgets i) h = record {
  schedules_lem = h.schedules_lem;
  executions_lem = h.executions_lem;
}
Step-IsAccounted {w = w} (triggers now fresh i c a g k) h = begin_run-IsAccounted now fresh c w h
Step-IsAccounted {w = w} (ends completed_at outcome r m) h =
    end_run-IsAccounted completed_at outcome r w h
Step-IsAccounted {w = w} (loses r m) h = lose_run-IsAccounted r w h
Step-IsAccounted {w = w} (creates fresh name kind cron interval enabled a k) h = record {
  schedules_lem = All-append _ w.store.schedules _ h.schedules_lem ((λ e. cc), tt);
  executions_lem = h.executions_lem;
}
Step-IsAccounted {w = w} (edits i e) h = record {
  schedules_lem =
      All-update (IsAttended w) (λ (d : JobSchedule). d.id == i) (edited e) (λ d _ k. k)
        w.store.schedules h.schedules_lem;
  executions_lem = h.executions_lem;
}
Step-IsAccounted {w = w} (deletes i) h = record {
  schedules_lem =
      All-select (IsAttended w) _ w.store.schedules
        (All-impl _ _ (λ d k _. k) w.store.schedules h.schedules_lem);
  executions_lem =
      All-select (IsTracked w) _ w.store.executions
        (All-impl _ _ (λ x k _. k) w.store.executions h.executions_lem);
}

-- However rounds, tasks, triggers by hand and changes of the register interleave: a schedule that is marked
-- as running has a run that is under way, or one that was lost, and so has every execution without an end.
pub Reach-IsAccounted :
    {allowed : ℕ → Bool} {w v : World} → IsAccounted w → Reach allowed w v → IsAccounted v
Reach-IsAccounted h here = h
Reach-IsAccounted h (next path step) = Step-IsAccounted step (Reach-IsAccounted h path)
