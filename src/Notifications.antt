-- ===== src/Notifications.antt =====
-- backend/src/notifications/notifications.service.ts, NotificationsService.
pub mod Reading
use recruit_saas.Common.{ℕ, Option, none, some, ◌==◌, ◌&&◌}
use recruit_saas.Schema.{Notification, Payload}
use recruit_saas.Prisma.{
  Prisma, Action, ◌>>=◌, ◌>>◌, return, or_throw, not_found, find_first, create, update,
}
use recruit_saas.Tables.{notification}

abbrev pub read_once : ℕ → Option ℕ → Option ℕ
read_once now none = some now
read_once now (some at) = some at

abbrev pub new_notification : ℕ → ℕ → Payload → Notification
new_notification new_id user_id payload = record {
  id = new_id;
  user_id = user_id;
  payload = payload;
  read_at = none;
}

module _ ⦃p : Prisma⦄ where
  -- Writes the row; the message of the log is left out.
  unfoldable pub notify : ℕ → ℕ → Payload → Action (Unit {0})
  notify new_id user_id payload = do
    create notification (new_notification new_id user_id payload)
    return tt

  pub mark_read : ℕ → ℕ → ℕ → Action Notification
  mark_read now user_id id = do
    found ← find_first notification λ n. n.id == id && n.user_id == user_id
    row ← or_throw not_found found
    update notification (λ n. n.id == row.id) λ n. record n { read_at = read_once now row.read_at }
