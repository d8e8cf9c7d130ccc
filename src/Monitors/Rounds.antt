-- ===== src/Monitors/Rounds.antt =====
-- A second round of apps/worker/tasks/dispatch_notifications.py over the same readings.
use middle_east_geopolitic.Monitors.Models.{
  of_state, default_limit, Condition, MonitorStore, list_monitors, Monitor,
}
use middle_east_geopolitic.Common.{
  take-All, sym, arith, subst, ◌≡◌, All-both, true, some, Elem, All, Option, ℕ, String,
}
use middle_east_geopolitic.Common.Float.{Float}
use middle_east_geopolitic.Monitors.Once.{
  evaluate_each-Alike, evaluate_each-Quiet, QuietAt, evaluate_each-notifications, Quiet, Reads,
}
use middle_east_geopolitic.Monitors.Alike.{
  Alike-partners, Alike-select, Alike-order, Alike-take, Alike,
}
use middle_east_geopolitic.Monitors.Evaluation.{reading, evaluate_each, evaluate_monitors}
use middle_east_geopolitic.Relationships.Service.{RelationshipStore}
use middle_east_geopolitic.Risk.Models.{RiskStore}
use middle_east_geopolitic.Common.Rows.{order_asc, select}
use mathlib.Core.Path.{fun_ext}
use middle_east_geopolitic.Common.Rows.Laws.{select_sound, order_asc-All, All-Elem}
use middle_east_geopolitic.Common.Rows.First.{All-from}

module _ {F : Type 0} where
  list_monitors-Elem :
      (collate : String → ℕ) (s : MonitorStore F)
      → All (λ m. Elem m s.monitors) (list_monitors collate (some true) default_limit 0 s)
  unfolding list_monitors
  list_monitors-Elem collate s =
      let listed = select (λ m. of_state (some true) m.enabled) s.monitors in
      take-All _ default_limit (order_asc (λ m. collate m.name) listed) (
        order_asc-All _ (λ m. collate m.name) listed
          (All-from _ listed (λ m k. (select_sound _ s.monitors m k).0)))

  list_monitors-Alike :
      (collate : String → ℕ) (s t : MonitorStore F)
      → Alike s.monitors t.monitors
      → Alike
          (list_monitors collate (some true) default_limit 0 s)
          (list_monitors collate (some true) default_limit 0 t)
  unfolding list_monitors
  list_monitors-Alike collate s t h =
      Alike-take default_limit _ _
        (Alike-order collate _ _ (Alike-select (some true) s.monitors t.monitors h))

  -- The monitors that the second round lists are quiet.
  listed-Quiet :
      (collate : String → ℕ) (now : ℕ) (ids : ℕ → ℕ) (read : Reads F) (s : MonitorStore F)
      → All (Quiet read) (
          list_monitors collate
            (some true)
            default_limit
            0
            (evaluate_each now ids read 0 (list_monitors collate (some true) default_limit 0 s) s))
  listed-Quiet collate now ids read s =
      let first = list_monitors collate (some true) default_limit 0 s in
      let t = evaluate_each now ids read 0 first s in
      All-both (λ m. (x : Monitor F) × Elem x first × (x.id ≡ m.id)) (λ m. Elem m t.monitors)
        (Quiet read)
        (λ m (x, k, e) l.
          All-Elem (QuietAt read x.id) t.monitors m (evaluate_each-Quiet now ids read 0 first s x k)
            l (ground (arith, e)))
        (list_monitors collate (some true) default_limit 0 t)
        (Alike-partners first _
          (list_monitors-Alike collate s t (evaluate_each-Alike now ids read 0 first s)))
        (list_monitors-Elem collate t)

module _ {F : Type 0} ⦃fl : Float F⦄ (read_number : String → Option F) (collate : String → ℕ) where
  -- After a round, another round that reads for every condition what the first one read, at whatever time
  -- and from whatever tables, adds no notification.
  pub evaluate_monitors-once :
      (now now' : ℕ) (ids ids' : ℕ → ℕ) (r r' : RelationshipStore F) (k k' : RiskStore F)
      (s : MonitorStore F)
      → ((kind : String) (c : Condition F)
          → reading read_number now' r' k' kind c ≡ reading read_number now r k kind c)
      → (evaluate_monitors read_number collate now' ids' r' k'
          (evaluate_monitors read_number collate now ids r k s)).notifications
        ≡ (evaluate_monitors read_number collate now ids r k s).notifications
  unfolding evaluate_monitors
  evaluate_monitors-once now now' ids ids' r r' k k' s same =
      let read = reading read_number now r k in
      let read' = reading read_number now' r' k' in
      let agree : read' ≡ read = fun_ext (λ kind. fun_ext (λ c. same kind c)) in
      let first = list_monitors collate (some true) default_limit 0 s in
      let t = evaluate_each now ids read 0 first s in
      evaluate_each-notifications now' ids' read' 0
        (list_monitors collate (some true) default_limit 0 t) t
        (subst (λ reads. All (Quiet reads) (list_monitors collate (some true) default_limit 0 t))
          (sym agree) (listed-Quiet collate now ids read s))
