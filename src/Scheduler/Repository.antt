-- ===== src/Scheduler/Repository.antt =====
-- src/mei/domain/schedules/models.py and src/mei/infrastructure/repositories/schedules.py. The
-- parameters of a job are left out: they go only to the job. Times and intervals are seconds, and an
-- interval is not negative.
use middle_east_geopolitic.Common.{
  not, ◌&&◌, id_eq, [], true, ◌∷◌, drop, ◌==◌, none, str_eq, take, ◌++◌, Bool, some, String, List,
  Option, ℕ,
}
use middle_east_geopolitic.Common.Rows.{order_desc, update, first?, select}

pub record JobSchedule : Type 0 where
  pub id : ℕ
  pub name : String
  pub job_type : String
  pub cron_expression : Option String
  pub interval_seconds : Option ℕ
  pub enabled : Bool
  pub last_run_at : Option ℕ
  pub next_run_at : Option ℕ
  pub last_status : Option String

pub record JobExecution : Type 0 where
  pub id : ℕ
  pub schedule_id : Option ℕ
  pub job_type : String
  pub started_at : ℕ
  pub completed_at : Option ℕ
  pub status : String
  pub items_processed : ℕ
  pub error_message : Option String
  pub log_output : Option String

pub record ScheduleStore : Type 0 where
  pub schedules : List JobSchedule
  pub executions : List JobExecution

-- What `update` is called with by the scheduler; the other arguments are `None` there.
pub record RunPatch : Type 0 where
  pub last_run_at : Option ℕ
  pub next_run_at : Option ℕ
  pub last_status : Option String

-- `x` where it is given, or the value that is there.
abbrev given_or {ℓ} : {A : Type ℓ} → Option A → Option A → Option A
given_or none old = old
given_or (some a) old = some a

unfoldable pub get_schedule : ℕ → ScheduleStore → Option JobSchedule
get_schedule i s = first? (λ c. c.id == i) s.schedules

unfoldable pub get_by_job_type : String → ScheduleStore → Option JobSchedule
get_by_job_type job_type s = first? (λ c. str_eq c.job_type job_type) s.schedules

-- `list_all(enabled_only=True)`; its order, by name, is left out.
unfoldable pub list_enabled : ScheduleStore → List JobSchedule
list_enabled s = select (λ c. c.enabled) s.schedules

abbrev pub patched : RunPatch → JobSchedule → JobSchedule
patched p c = record c {
  last_run_at = given_or p.last_run_at c.last_run_at;
  next_run_at = given_or p.next_run_at c.next_run_at;
  last_status = given_or p.last_status c.last_status;
}

unfoldable pub update_schedule : ℕ → RunPatch → ScheduleStore → ScheduleStore
update_schedule i p s = record s {
  schedules = update (λ (c : JobSchedule). c.id == i) (patched p) s.schedules;
}

unfoldable pub create_execution : ℕ → JobSchedule → ℕ → ScheduleStore → ScheduleStore
create_execution fresh c started_at s = record s {
  executions =
      s.executions
      ++ (record {
        id = fresh;
        schedule_id = some c.id;
        job_type = c.job_type;
        started_at = started_at;
        completed_at = none;
        status = "running";
        items_processed = 0;
        error_message = none;
        log_output = none;
      }
          ∷ []);
}

abbrev pub completed : ℕ → String → ℕ → Option String → String → JobExecution → JobExecution
completed completed_at status items message logs x = record x {
  completed_at = some completed_at;
  status = status;
  items_processed = items;
  error_message = given_or message x.error_message;
  log_output = some logs;
}

unfoldable pub update_execution :
    ℕ → ℕ → String → ℕ → Option String → String → ScheduleStore → ScheduleStore
update_execution i completed_at status items message logs s = record s {
  executions =
      update (λ (x : JobExecution). x.id == i) (completed completed_at status items message logs)
        s.executions;
}

abbrev is_execution_of : Option String → Option ℕ → JobExecution → Bool
is_execution_of none none x = true
is_execution_of (some t) none x = str_eq x.job_type t
is_execution_of none (some i) x = id_eq x.schedule_id (some i)
is_execution_of (some t) (some i) x = str_eq x.job_type t && id_eq x.schedule_id (some i)

-- A job type that is the empty text is none.
unfoldable pub list_executions :
    Option String → Option ℕ → ℕ → ℕ → ScheduleStore → List JobExecution
list_executions job_type schedule_id limit offset s = take limit (
    drop offset
      (order_desc (λ x. x.started_at) (select (is_execution_of job_type schedule_id) s.executions)))

-- `create`
abbrev pub new_schedule : ℕ → String → String → Option String → Option ℕ → Bool → JobSchedule
new_schedule fresh name job_type cron_expression interval_seconds enabled = record {
  id = fresh;
  name = name;
  job_type = job_type;
  cron_expression = cron_expression;
  interval_seconds = interval_seconds;
  enabled = enabled;
  last_run_at = none;
  next_run_at = none;
  last_status = some "idle";
}

unfoldable pub insert_schedule : JobSchedule → ScheduleStore → ScheduleStore
insert_schedule c s = record s { schedules = s.schedules ++ (c ∷ []) }

-- What the router gives to `update`.
pub record Edit : Type 0 where
  pub name : Option String
  pub cron_expression : Option String
  pub interval_seconds : Option ℕ
  pub enabled : Option Bool

abbrev value_or {ℓ} : {A : Type ℓ} → Option A → A → A
value_or none old = old
value_or (some a) old = a

abbrev pub edited : Edit → JobSchedule → JobSchedule
edited e c = record c {
  name = value_or e.name c.name;
  cron_expression = given_or e.cron_expression c.cron_expression;
  interval_seconds = given_or e.interval_seconds c.interval_seconds;
  enabled = value_or e.enabled c.enabled;
}

unfoldable pub edit_schedule : ℕ → Edit → ScheduleStore → ScheduleStore
edit_schedule i e s = record s {
  schedules = update (λ (c : JobSchedule). c.id == i) (edited e) s.schedules;
}

-- `delete`, with the executions, to which the deletion cascades
unfoldable pub delete_schedule : ℕ → ScheduleStore → ScheduleStore
delete_schedule i s = record {
  schedules = select (λ (c : JobSchedule). not (c.id == i)) s.schedules;
  executions = select (λ x. not (id_eq x.schedule_id (some i))) s.executions;
}
