-- ===== src/Monitors/Delivery.antt =====
-- `_send_notification_async` of apps/worker/tasks/dispatch_notifications.py. What the messenger answers is a
-- parameter.
use middle_east_geopolitic.Monitors.Models.{
  failed, get_notification, sent, is_pending, MonitorStore, Notification,
}
use middle_east_geopolitic.Common.{
  [], inr, inl, Bool-cases, ◌∷◌, refl, true, none, false, some, ◌==◌, ◌≡◌, All, List, ℕ,
}
use middle_east_geopolitic.Common.Rows.{update}
use middle_east_geopolitic.Common.Result.{err, ok, Result}

abbrev pub delivered : ℕ → Result (Unit {0}) → Notification → Notification
delivered now (ok _) n = record n { status = sent; sent_at = some now }
delivered now (err e) n = record n { status = failed }

-- An unknown id is logged. Otherwise the row is read, the message sent, and its outcome stored.
unfoldable pub send_notification :
    {F : Type 0} → ℕ → (Notification → Result (Unit {0})) → ℕ → MonitorStore F → MonitorStore F
send_notification now messenger i s = elim (get_notification i s) [
  | none ↦ s
  | some n ↦ record s {
    notifications = update (λ x. x.id == i) (λ x. delivered now (messenger n) x) s.notifications;
  }
]

delivered-settled :
    (now : ℕ) (r : Result (Unit {0})) (n : Notification)
    → is_pending (delivered now r n).status ≡ false
delivered-settled now (ok u) n = refl
delivered-settled now (err e) n = refl

settled_rows :
    (now i : ℕ) (r : Result (Unit {0})) (xs : List Notification)
    → All
        (λ n. (n.id == i) ≡ true → is_pending n.status ≡ false)
        (update (λ x. x.id == i) (λ x. delivered now r x) xs)
unfolding update
settled_rows now i r [] = tt
settled_rows now i r (x ∷ xs) = elim (Bool-cases (x.id == i)) [
  | inl e ↦ rw e ((λ _. delivered-settled now r x), settled_rows now i r xs)
  | inr e ↦ rw e ((λ k. cc), settled_rows now i r xs)
]

-- However the messenger answers, a notification that was found is no longer pending.
pub send_notification-settles :
    {F : Type 0} (now : ℕ) (messenger : Notification → Result (Unit {0})) (i : ℕ) (n : Notification)
    (s : MonitorStore F)
    → get_notification i s ≡ some n
    → All
        (λ x. (x.id == i) ≡ true → is_pending x.status ≡ false)
        (send_notification now messenger i s).notifications
unfolding send_notification
send_notification-settles now messenger i n s h =
    rw (h, send_notification) (settled_rows now i (messenger n) s.notifications)
