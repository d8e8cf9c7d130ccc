-- ===== src/Monitors/Once.antt =====
-- Two rounds of apps/worker/tasks/dispatch_notifications.py: what a monitor has notified of, it does not
-- notify of again.
use mathlib.Core.List.{append-nil}
use middle_east_geopolitic.Monitors.Models.{MonitorStore, Condition, Monitor}
use middle_east_geopolitic.Common.{
  ◌∙◌, ◌+◌, Elem, arith, none, refl, some, inr, inl, Bool-cases, ◌∷◌, Bool, [], Option, true, All,
  subst, List, ◌==◌, ◌≡◌, String, ℕ,
}
use middle_east_geopolitic.Monitors.Evaluation.{
  evaluate_each, trigger_time, triggered_at, evaluated, notifications_of,
}
use middle_east_geopolitic.Common.Rows.{update}
use middle_east_geopolitic.Common.Result.{ok, err, Result}
use middle_east_geopolitic.Monitors.Alike.{Alike-trans, Alike-refl, Alike}
use middle_east_geopolitic.Common.Rows.Laws.{All-update}

-- What a type of monitor reads for a condition.
abbrev pub Reads : Type 0 → Type 0
Reads F = String → Condition F → Result (Option (ℕ × Bool))

module _ {F : Type 0} where
  evaluated-alike :
      (now : ℕ) (r : Result (Option (ℕ × Bool))) (m : Monitor F)
      → ((m.id ≡ (evaluated now r m).id)
          × (m.name ≡ (evaluated now r m).name)
          × (m.enabled ≡ (evaluated now r m).enabled))
        × (m.monitor_type ≡ (evaluated now r m).monitor_type)
        × (m.condition ≡ (evaluated now r m).condition)
  unfolding evaluated
  evaluated-alike now (err e) m = ((refl, refl, refl), refl, refl)
  evaluated-alike now (ok r) m = by_trigger (trigger_time r m.last_triggered_at)
    where
      by_trigger :
          (t : Option ℕ)
          → ((m.id ≡ (triggered_at t m).id)
              × (m.name ≡ (triggered_at t m).name)
              × (m.enabled ≡ (triggered_at t m).enabled))
            × (m.monitor_type ≡ (triggered_at t m).monitor_type)
            × (m.condition ≡ (triggered_at t m).condition)
      by_trigger none = ((refl, refl, refl), refl, refl)
      by_trigger (some t) = ((refl, refl, refl), refl, refl)

  -- A monitor that has just been evaluated on a reading notifies of nothing on the same reading.
  notifications_of-evaluated :
      (now fresh : ℕ) (r : Result (Option (ℕ × Bool))) (m : Monitor F)
      → notifications_of fresh r (evaluated now r m) ≡ []
  unfolding notifications_of evaluated
  notifications_of-evaluated now fresh (err e) m = refl
  notifications_of-evaluated now fresh (ok none) m = refl
  notifications_of-evaluated now fresh (ok (some (t, violated))) m = ground arith

  -- The monitor would notify of nothing.
  abbrev pub Quiet : Reads F → Monitor F → Type 0
  Quiet read m = (fresh : ℕ) → notifications_of fresh (read m.monitor_type m.condition) m ≡ []

  evaluated-Quiet :
      (now : ℕ) (read : Reads F) (m : Monitor F)
      → Quiet read (evaluated now (read m.monitor_type m.condition) m)
  evaluated-Quiet now read m fresh =
      let (same, kind, cond) = evaluated-alike now (read m.monitor_type m.condition) m in
      subst (λ r. notifications_of fresh r (evaluated now (read m.monitor_type m.condition) m) ≡ [])
        (λ i. read (kind i) (cond i))
        (notifications_of-evaluated now fresh (read m.monitor_type m.condition) m)

  abbrev pub step : ℕ → Reads F → Monitor F → Monitor F
  step now read m = evaluated now (read m.monitor_type m.condition) m

  update-Alike :
      (now : ℕ) (read : Reads F) (i : ℕ) (xs : List (Monitor F))
      → Alike xs (update (λ x. x.id == i) (step now read) xs)
  unfolding update
  update-Alike now read i [] = tt
  update-Alike now read i (x ∷ xs) = elim (Bool-cases (x.id == i)) [
    | inl e ↦
        rw e
          ((evaluated-alike now (read x.monitor_type x.condition) x).0, update-Alike now read i xs)
    | inr e ↦ rw e ((refl, refl, refl), update-Alike now read i xs)
  ]

  abbrev pub QuietAt : Reads F → ℕ → Monitor F → Type 0
  QuietAt read i m = (m.id == i) ≡ true → Quiet read m

  -- The rows of an id are quiet after their update, and stay so.
  update-Quiet_self :
      (now : ℕ) (read : Reads F) (i : ℕ) (xs : List (Monitor F))
      → All (QuietAt read i) (update (λ x. x.id == i) (step now read) xs)
  unfolding update
  update-Quiet_self now read i [] = tt
  update-Quiet_self now read i (x ∷ xs) = elim (Bool-cases (x.id == i)) [
    | inl e ↦ rw e ((λ _. evaluated-Quiet now read x), update-Quiet_self now read i xs)
    | inr e ↦ rw e ((λ k. cc), update-Quiet_self now read i xs)
  ]

  update-Quiet_other :
      (now : ℕ) (read : Reads F) (i j : ℕ) (xs : List (Monitor F))
      → All (QuietAt read i) xs
      → All (QuietAt read i) (update (λ x. x.id == j) (step now read) xs)
  update-Quiet_other now read i j xs h =
      All-update (QuietAt read i) (λ x. x.id == j) (step now read)
        (λ x _ _ _. evaluated-Quiet now read x) xs h

  evaluate_each-Quiet_other :
      (now : ℕ) (ids : ℕ → ℕ) (read : Reads F) (n i : ℕ) (ms : List (Monitor F))
      (s : MonitorStore F)
      → All (QuietAt read i) s.monitors
      → All (QuietAt read i) (evaluate_each now ids read n ms s).monitors
  unfolding evaluate_each
  evaluate_each-Quiet_other now ids read n i [] s h = h
  evaluate_each-Quiet_other now ids read n i (m ∷ ms) s h =
      evaluate_each-Quiet_other now ids read (n + 1) i ms _
        (update-Quiet_other now read i m.id s.monitors h)

  -- After a round over monitors, the rows with their ids are quiet.
  pub evaluate_each-Quiet :
      (now : ℕ) (ids : ℕ → ℕ) (read : Reads F) (n : ℕ) (ms : List (Monitor F)) (s : MonitorStore F)
      (m : Monitor F)
      → Elem m ms
      → All (QuietAt read m.id) (evaluate_each now ids read n ms s).monitors
  unfolding evaluate_each
  evaluate_each-Quiet now ids read n [] s m h = elim h [ ]
  evaluate_each-Quiet now ids read n (x ∷ ms) s m (inl e) =
      evaluate_each-Quiet_other now ids read (n + 1) m.id ms _
        (rw e (update-Quiet_self now read x.id s.monitors))
  evaluate_each-Quiet now ids read n (x ∷ ms) s m (inr k) =
      evaluate_each-Quiet now ids read (n + 1) ms _ m k

  pub evaluate_each-Alike :
      (now : ℕ) (ids : ℕ → ℕ) (read : Reads F) (n : ℕ) (ms : List (Monitor F)) (s : MonitorStore F)
      → Alike s.monitors (evaluate_each now ids read n ms s).monitors
  unfolding evaluate_each
  evaluate_each-Alike now ids read n [] s = Alike-refl s.monitors
  evaluate_each-Alike now ids read n (m ∷ ms) s =
      Alike-trans s.monitors _ _ (update-Alike now read m.id s.monitors)
        (evaluate_each-Alike now ids read (n + 1) ms _)

  -- A round over quiet monitors notifies of nothing.
  pub evaluate_each-notifications :
      (now : ℕ) (ids : ℕ → ℕ) (read : Reads F) (n : ℕ) (ms : List (Monitor F)) (s : MonitorStore F)
      → All (Quiet read) ms
      → (evaluate_each now ids read n ms s).notifications ≡ s.notifications
  unfolding evaluate_each
  evaluate_each-notifications now ids read n [] s h = refl
  evaluate_each-notifications now ids read n (m ∷ ms) s h =
      evaluate_each-notifications now ids read (n + 1) ms _ h.1
      ∙ rw (h.0 (ids n)) (append-nil s.notifications)
