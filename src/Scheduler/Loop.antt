-- ===== src/Scheduler/Loop.antt =====
-- What a round of the loop starts, and when a schedule is next started.

-- A round starts exactly the enabled schedules whose time has come and that are not running.
use middle_east_geopolitic.Common.{
  leb, inr, [], refl, inl, Bool-cases, ◌∷◌, if◌then◌else◌, All, ◌<◌, List, ap, arith, not, none,
  ◌&&◌, Bool, false, ◌+◌, some, true, ◌≡◌, ◌↔◌, ◌==◌, Elem, ℕ,
}
use middle_east_geopolitic.Scheduler.Service.{
  failed, succeeded, close_execution, status_of, interval_of, is_running, is_reached, JobOutcome,
  begin_execution, finish_execution, execute_schedule, due_schedules,
}
use middle_east_geopolitic.Scheduler.Repository.{
  patched, update_execution, create_execution, update_schedule, ScheduleStore, list_enabled,
  JobSchedule,
}
use middle_east_geopolitic.Common.Rows.{select, update}
use middle_east_geopolitic.Common.Rows.Laws.{All-select, select_complete, select_sound}

pub due_schedules_iff :
    (now : ℕ) (s : ScheduleStore) (c : JobSchedule)
    → Elem c (due_schedules now s) ↔ (
        Elem c s.schedules
        × (c.enabled ≡ true)
        × (is_reached c.next_run_at now ≡ true)
        × (is_running c.last_status ≡ false))
unfolding due_schedules list_enabled
due_schedules_iff now s c = (to, from)
  where
    test : JobSchedule → Bool
    test c = is_reached c.next_run_at now && not (is_running c.last_status)

    to :
        Elem c (select test (select (λ d. d.enabled) s.schedules))
        → Elem c s.schedules
          × (c.enabled ≡ true)
          × (is_reached c.next_run_at now ≡ true)
          × (is_running c.last_status ≡ false)
    to m =
        let (m1, t) = select_sound test (select (λ d. d.enabled) s.schedules) c m in
        let (m2, u) = select_sound (λ (d : JobSchedule). d.enabled) s.schedules c m1 in
        (m2, u, ground arith, ground arith)

    from :
        Elem c s.schedules
          × (c.enabled ≡ true)
          × (is_reached c.next_run_at now ≡ true)
          × (is_running c.last_status ≡ false)
        → Elem c (select test (select (λ d. d.enabled) s.schedules))
    from (m, u, r, q) =
        select_complete test _ c
          (select_complete (λ (d : JobSchedule). d.enabled) s.schedules c m u) (ground arith)

pub close_execution-schedules :
    (fresh completed_at : ℕ) (outcome : JobOutcome) (s : ScheduleStore)
    → (close_execution fresh completed_at outcome s).schedules ≡ s.schedules
unfolding update_execution
close_execution-schedules fresh completed_at (succeeded items logs) s = refl
close_execution-schedules fresh completed_at (failed message) s = refl

-- The changes of a row at the start and at the end of a run.
abbrev begun : ℕ → JobSchedule → JobSchedule
begun now =
    patched (record { last_run_at = some now; next_run_at = none; last_status = some "running" })

abbrev ended : ℕ → ℕ → JobOutcome → JobSchedule → JobSchedule
ended now next outcome = patched (record {
  last_run_at = some now;
  next_run_at = some next;
  last_status = some (status_of outcome);
})

-- The table of schedules after a run, as two changes of the rows of that id.
execute-schedules :
    (now completed_at fresh : ℕ) (job : JobSchedule → JobOutcome) (c : JobSchedule)
    (s : ScheduleStore)
    → (execute_schedule now completed_at fresh job c s).1.schedules
      ≡ update
          (λ (d : JobSchedule). d.id == c.id)
          (ended now (completed_at + interval_of c) (job c))
          (update (λ (d : JobSchedule). d.id == c.id) (begun now) s.schedules)
unfolding execute_schedule finish_execution begin_execution update_schedule create_execution
execute-schedules now completed_at fresh job c s =
    ap
      (update (λ (d : JobSchedule). d.id == c.id)
        (ended now (completed_at + interval_of c) (job c)))
      (close_execution-schedules fresh completed_at (job c) (begin_execution now fresh c s))

late : (next t : ℕ) (b : Bool) → t < next → (leb next t && b) ≡ false
late next t b h = ground arith

-- A row that has just run is not reached before its interval is over.
ended-waits :
    (i now next t : ℕ) (outcome : JobOutcome) (d : JobSchedule)
    → t < next
    → let e = if d.id == i then begun now d else d in
      let f = if e.id == i then ended now next outcome e else e in
      (is_reached f.next_run_at t && not (is_running f.last_status)) ≡ true → (f.id == i) ≡ false
ended-waits i now next t outcome d h = elim (Bool-cases (d.id == i)) [
  | inl e ↦ rw (e, e) (λ k. cc (late next t (not (is_running (some (status_of outcome)))) h, k))
  | inr e ↦ rw (e, e) (λ k. e)
]

ended-waits-All :
    (i now next t : ℕ) (outcome : JobOutcome) (ds : List JobSchedule)
    → t < next
    → All
        (λ f.
          f.enabled ≡ true
          → (is_reached f.next_run_at t && not (is_running f.last_status)) ≡ true
          → (f.id == i) ≡ false)
        (update
          (λ (d : JobSchedule). d.id == i)
          (ended now next outcome)
          (update (λ (d : JobSchedule). d.id == i) (begun now) ds))
unfolding update
ended-waits-All i now next t outcome [] h = tt
ended-waits-All i now next t outcome (d ∷ ds) h =
    ((λ _. ended-waits i now next t outcome d h), ended-waits-All i now next t outcome ds h)

-- After a run of a schedule, successful or failed, no round starts it before its interval, or a day
-- where it has none, has passed since the run ended.
pub execute_schedule-waits :
    (now completed_at fresh t : ℕ) (job : JobSchedule → JobOutcome) (c : JobSchedule)
    (s : ScheduleStore)
    → t < completed_at + interval_of c
    → All
        (λ d. (d.id == c.id) ≡ false)
        (due_schedules t (execute_schedule now completed_at fresh job c s).1)
unfolding due_schedules list_enabled
execute_schedule-waits now completed_at fresh t job c s h =
    rw (execute-schedules now completed_at fresh job c s) (
      All-select (λ (d : JobSchedule). (d.id == c.id) ≡ false)
        (λ (d : JobSchedule). is_reached d.next_run_at t && not (is_running d.last_status)) _
        (All-select _ (λ (d : JobSchedule). d.enabled) _
          (ended-waits-All c.id now (completed_at + interval_of c) t (job c) s.schedules h)))
