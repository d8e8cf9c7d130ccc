-- ===== src/Monitors/Models.antt =====
-- src/mei/domain/monitors/models.py and src/mei/infrastructure/repositories/monitors.py: the rows, queries
-- and writes of the tables of monitors.
use middle_east_geopolitic.Casework.Models.{RawId}
use middle_east_geopolitic.Common.{
  not, [], drop, false, ◌==◌, none, some, true, take, ◌∷◌, String, List, Bool, Option, ◌++◌, ℕ,
}
use middle_east_geopolitic.Common.Rows.{order_asc, first?, select}

-- A value of `condition_json` or of a row, as `float` takes it: a number, a text, or what it refuses.
pub data Value (F : Type 0) : Type 0 where
  number : F → Value F
  text : String → Value F
  no_number : Value F

-- The keys of `condition_json` that the evaluation reads. An id is none where it is falsy.
pub record Condition (F : Type 0) : Type 0 where
  pub relationship_id : Option RawId
  pub field : Option String
  pub operator : Option String
  pub value : Option (Value F)
  pub country_actor_id : Option RawId
  pub risk_definition_id : Option RawId

pub record Monitor (F : Type 0) : Type 0 where
  pub id : ℕ
  pub name : String
  pub user_id : ℕ
  pub monitor_type : String
  pub condition : Condition F
  pub schedule : Option String
  pub delivery_channel : String
  pub enabled : Bool
  pub last_evaluated_at : Option ℕ
  pub last_triggered_at : Option ℕ

-- The comment of the column: pending, sent, failed.
pub data NotificationStatus : Type 0 where
  pending sent failed : NotificationStatus

abbrev pub is_pending : NotificationStatus → Bool
is_pending pending = true
is_pending _ = false

-- The title and the body are texts that are only shown.
pub record Notification : Type 0 where
  pub id : ℕ
  pub monitor_id : Option ℕ
  pub report_id : Option ℕ
  pub severity : String
  pub delivery_channel : String
  pub status : NotificationStatus
  pub sent_at : Option ℕ

pub record MonitorStore (F : Type 0) : Type 0 where
  pub monitors : List (Monitor F)
  pub notifications : List Notification

abbrev pub of_state : Option Bool → Bool → Bool
of_state none e = true
of_state (some true) e = e
of_state (some false) e = not e

abbrev pub default_limit : ℕ
default_limit = 50

module _ {F : Type 0} where
  unfoldable pub get_monitor : ℕ → MonitorStore F → Option (Monitor F)
  get_monitor i s = first? (λ m. m.id == i) s.monitors

  -- `list_all` by name; `collate` is the place of a text in the order of the database.
  unfoldable pub list_monitors :
      (String → ℕ) → Option Bool → ℕ → ℕ → MonitorStore F → List (Monitor F)
  list_monitors collate enabled limit offset s = take limit (
      drop offset
        (order_asc (λ m. collate m.name) (select (λ m. of_state enabled m.enabled) s.monitors)))

  unfoldable pub insert_monitor : Monitor F → MonitorStore F → MonitorStore F
  insert_monitor m s = record s { monitors = s.monitors ++ (m ∷ []) }

  -- `delete`, with whether the monitor was there
  unfoldable pub delete_monitor : ℕ → MonitorStore F → MonitorStore F × Bool
  unfolding get_monitor
  delete_monitor i s = elim (get_monitor i s) [
    | none ↦ (s, false)
    | some m ↦ (record s { monitors = select (λ m. not (m.id == i)) s.monitors }, true)
  ]

  unfoldable pub insert_notification : Notification → MonitorStore F → MonitorStore F
  insert_notification n s = record s { notifications = s.notifications ++ (n ∷ []) }

  unfoldable pub get_notification : ℕ → MonitorStore F → Option Notification
  get_notification i s = first? (λ n. n.id == i) s.notifications

  unfoldable pub list_pending_notifications : MonitorStore F → List Notification
  list_pending_notifications s = select (λ n. is_pending n.status) s.notifications

-- `create_notification`, as the evaluation calls it
abbrev pub warning_of : ℕ → ℕ → String → Notification
warning_of fresh monitor channel = record {
  id = fresh;
  monitor_id = some monitor;
  report_id = none;
  severity = "warning";
  delivery_channel = channel;
  status = pending;
  sent_at = none;
}
