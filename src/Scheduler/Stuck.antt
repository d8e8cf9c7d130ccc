-- ===== src/Scheduler/Stuck.antt =====
-- A schedule whose run was lost is not started again by the scheduler.
use middle_east_geopolitic.Common.{
  ◌≡◌, refl, All, All-impl, All-append, Elem, Bool, Bool-cases, true, false, not, ◌==◌, inl, inr, ℕ,
  List, [], ◌∷◌, arith, map, Option, some, none, if◌then◌else◌,
}
use middle_east_geopolitic.Common.Rows.Laws.{All-update, All-select, All-Elem, first?_sound}
use middle_east_geopolitic.Scheduler.Repository.{
  JobSchedule, ScheduleStore, get_schedule, insert_schedule, edit_schedule, edited, delete_schedule,
  create_execution, update_schedule, list_enabled,
}
use middle_east_geopolitic.Scheduler.Service.{
  JobOutcome, begin_execution, finish_execution, is_running, due_schedules,
}
use middle_east_geopolitic.Scheduler.Loop.{close_execution-schedules}
use middle_east_geopolitic.Scheduler.Runs.{
  Run, World, Step, starts, stops, checks, begins, forgets, triggers, ends, loses, creates, edits,
  deletes, Reach, here, next, without_run, without_task, round, begin_run, begin_task, end_run,
  lose_run,
}

abbrev pub IsMarked : ℕ → JobSchedule → Type 0
IsMarked i d = (d.id == i) ≡ true → is_running d.last_status ≡ true

-- The schedule is marked as running, and no task of it waits or runs.
pub record IsStuck (i : ℕ) (w : World) : Type 0 where
  pub marked_lem : All (IsMarked i) w.store.schedules
  pub waiting_lem : All (λ j. (j == i) ≡ false) w.waiting
  pub running_lem : All (λ (r : Run). (r.schedule.id == i) ≡ false) w.running

abbrev pub all_but : ℕ → ℕ → Bool
all_but i j = not (j == i)

-- No round starts a schedule that is marked as running.
due_schedules-marked :
    (i now : ℕ) (s : ScheduleStore)
    → All (IsMarked i) s.schedules
    → All (λ (d : JobSchedule). (d.id == i) ≡ false) (due_schedules now s)
unfolding due_schedules list_enabled
due_schedules-marked i now s h =
    All-select (λ (d : JobSchedule). (d.id == i) ≡ false) _ _
      (All-select _ (λ (d : JobSchedule). d.enabled) s.schedules
        (All-impl _ _
          (λ d k _ m. elim (Bool-cases (d.id == i)) [ inr e ↦ e | inl e ↦ ground (arith, m, k e) ])
          s.schedules h))

map-id :
    (i : ℕ) (ds : List JobSchedule)
    → All (λ (d : JobSchedule). (d.id == i) ≡ false) ds
    → All (λ j. (j == i) ≡ false) (map (λ d. d.id) ds)
map-id i [] h = tt
map-id i (d ∷ ds) h = (h.0, map-id i ds h.1)

without_task-All : (P : ℕ → Type 0) (j : ℕ) (js : List ℕ) → All P js → All P (without_task j js)
unfolding without_task
without_task-All P j [] h = tt
without_task-All P j (k ∷ ks) h =
    elim (k == j) as (λ b. All P (elim b [ true ↦ ks | false ↦ k ∷ without_task j ks ])) [
      | true ↦ h.1
      | false ↦ (h.0, without_task-All P j ks h.1)
    ]

without_run-All : (P : Run → Type 0) (r : Run) (rs : List Run) → All P rs → All P (without_run r rs)
unfolding without_run
without_run-All P r rs h = All-select P _ rs (All-impl _ _ (λ q k _. k) rs h)

get_schedule-other :
    (i j : ℕ) (c : JobSchedule) (s : ScheduleStore)
    → get_schedule j s ≡ some c
    → (j == i) ≡ false
    → (c.id == i) ≡ false
unfolding get_schedule
get_schedule-other i j c s h k =
    let (_, t) = first?_sound (λ (c : JobSchedule). c.id == j) s.schedules c h in
    ground (arith, t, k)

begin_run-IsStuck :
    (i now fresh : ℕ) (c : JobSchedule) (w : World)
    → (c.id == i) ≡ false
    → IsStuck i w
    → IsStuck i (begin_run now fresh c w)
unfolding begin_run begin_execution update_schedule create_execution
begin_run-IsStuck i now fresh c w n h = record {
  marked_lem =
      All-update (IsMarked i) (λ (d : JobSchedule). d.id == c.id) _ (λ d _ k _. refl)
        w.store.schedules h.marked_lem;
  waiting_lem = h.waiting_lem;
  running_lem = All-append _ w.running _ h.running_lem (n, tt);
}

begin_task-IsStuck :
    (i now fresh j : ℕ) (w : World)
    → Elem j w.waiting
    → IsStuck i w
    → IsStuck i (begin_task now fresh j w)
unfolding begin_task
begin_task-IsStuck i now fresh j w m h = go (get_schedule j w.store) refl
  where
    w1 : World
    w1 = record w { waiting = without_task j w.waiting }

    h1 : IsStuck i w1
    h1 = record {
      marked_lem = h.marked_lem;
      waiting_lem = without_task-All _ j w.waiting h.waiting_lem;
      running_lem = h.running_lem;
    }

    go :
        (found : Option JobSchedule)
        → get_schedule j w.store ≡ found
        → IsStuck i
            (elim found [ none ↦ w1 | some c ↦ if c.enabled then begin_run now fresh c w1 else w1 ])
    go none e = h1
    go (some c) e =
        elim c.enabled as (λ b. IsStuck i (if b then begin_run now fresh c w1 else w1)) [
          | true ↦
              begin_run-IsStuck i now fresh c w1
                (get_schedule-other i j c w.store e (All-Elem _ w.waiting j h.waiting_lem m)) h1
          | false ↦ h1
        ]

end_run-IsStuck :
    (i completed_at : ℕ) (outcome : JobOutcome) (r : Run) (w : World)
    → Elem r w.running
    → IsStuck i w
    → IsStuck i (end_run completed_at outcome r w)
unfolding end_run finish_execution update_schedule
end_run-IsStuck i completed_at outcome r w m h =
    let n = All-Elem (λ (r : Run). (r.schedule.id == i) ≡ false) w.running r h.running_lem m in
    record {
      marked_lem = rw (close_execution-schedules r.execution_id completed_at outcome w.store) (
          All-update (IsMarked i) (λ (d : JobSchedule). d.id == r.schedule.id) _
            (λ d t k e. ground (arith, t, e, n)) w.store.schedules h.marked_lem);
      waiting_lem = h.waiting_lem;
      running_lem = without_run-All _ r w.running h.running_lem;
    }

Step-IsStuck : {i : ℕ} {w v : World} → Step (all_but i) w v → IsStuck i w → IsStuck i v
unfolding round insert_schedule edit_schedule delete_schedule lose_run
Step-IsStuck (starts) h = record {
  marked_lem = h.marked_lem;
  waiting_lem = h.waiting_lem;
  running_lem = h.running_lem;
}
Step-IsStuck (stops) h = record {
  marked_lem = h.marked_lem;
  waiting_lem = h.waiting_lem;
  running_lem = h.running_lem;
}
Step-IsStuck {i} {w} (checks now l) h = record {
  marked_lem = h.marked_lem;
  waiting_lem =
      All-append _ w.waiting _ h.waiting_lem
        (map-id i _ (due_schedules-marked i now w.store h.marked_lem));
  running_lem = h.running_lem;
}
Step-IsStuck {i} {w} (begins now fresh j m k) h = begin_task-IsStuck i now fresh j w m h
Step-IsStuck {i} {w} (forgets j) h = record {
  marked_lem = h.marked_lem;
  waiting_lem = without_task-All _ j w.waiting h.waiting_lem;
  running_lem = h.running_lem;
}
Step-IsStuck {i} {w} (triggers now fresh j c a g k) h =
    begin_run-IsStuck i now fresh c w (get_schedule-other i j c w.store g (ground (arith, a))) h
Step-IsStuck {i} {w} (ends completed_at outcome r m) h =
    end_run-IsStuck i completed_at outcome r w m h
Step-IsStuck {i} {w} (loses r m) h = record {
  marked_lem = h.marked_lem;
  waiting_lem = h.waiting_lem;
  running_lem = without_run-All _ r w.running h.running_lem;
}
Step-IsStuck {i} {w} (creates fresh name kind cron interval enabled a k) h = record {
  marked_lem = All-append _ w.store.schedules _ h.marked_lem ((λ m. ground (arith, a, m)), tt);
  waiting_lem = h.waiting_lem;
  running_lem = h.running_lem;
}
Step-IsStuck {i} {w} (edits j e) h = record {
  marked_lem =
      All-update (IsMarked i) (λ (d : JobSchedule). d.id == j) (edited e) (λ d _ k. k)
        w.store.schedules h.marked_lem;
  waiting_lem = h.waiting_lem;
  running_lem = h.running_lem;
}
Step-IsStuck {i} {w} (deletes j) h = record {
  marked_lem =
      All-select (IsMarked i) _ w.store.schedules
        (All-impl _ _ (λ d k _. k) w.store.schedules h.marked_lem);
  waiting_lem = h.waiting_lem;
  running_lem = h.running_lem;
}

-- A schedule that is marked as running, of which no task waits or runs, such as one whose run was lost, stays
-- so: however rounds, tasks, triggers of other schedules and changes of the register interleave, it is still
-- marked as running wherever it is registered, and no round starts it, at whatever time.
pub Reach-IsStuck :
    {i : ℕ} {w v : World}
    → IsStuck i w
    → Reach (all_but i) w v
    → IsStuck i v × ((now : ℕ) → All (λ d. (d.id == i) ≡ false) (due_schedules now v.store))
Reach-IsStuck {i} {w} h here = (h, λ now. due_schedules-marked i now w.store h.marked_lem)
Reach-IsStuck {i} h (next {v = v} path step) =
    let k = Step-IsStuck step (Reach-IsStuck h path).0 in
    (k, λ now. due_schedules-marked i now v.store k.marked_lem)
