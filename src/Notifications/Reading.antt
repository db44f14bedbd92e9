-- ===== src/Notifications/Reading.antt =====
-- `listMine` and `markRead` of NotificationsService.
use recruit_saas.Common.{ℕ, ◌≡◌, ◌⊎◌, inl, inr, some, arith, ◌==◌, ◌&&◌, modify, Has}
use recruit_saas.Schema.{Db, Notification}
use recruit_saas.Prisma.{Prisma, Action, ok, err, not_found}
use recruit_saas.Prisma.Keys.{UniqueBy, find_first-cases, update-key}
use recruit_saas.Tables.{notification}
use recruit_saas.Requests.{Page, Listing, any_order, list_page}
use recruit_saas.Notifications.{mark_read, read_once}

abbrev pub as_read : ℕ → Notification → Notification
as_read now n = record n { read_at = read_once now n.read_at }

module _ ⦃p : Prisma⦄ where
  pub list_mine : ℕ → Page → Action (Listing Notification)
  list_mine user_id query = list_page notification any_order (λ n. n.user_id == user_id) query

  -- Marking a notification read is refused as not found and changes nothing, unless it is one of the
  -- user's own; then that row gets the time if it had none, an earlier time is kept, and nothing else
  -- changes. The ids of notifications are distinct.
  pub mark_read_sound :
      (now user_id id : ℕ) (db : Db)
      → UniqueBy (λ (n : Notification). n.id) db.notifications
      → (mark_read now user_id id db ≡ (err not_found, db))
        ⊎ ((n : Notification) × Has n db.notifications
            × (n.id ≡ id)
            × (n.user_id ≡ user_id)
            × ((at : ℕ) → n.read_at ≡ some at → (as_read now n).read_at ≡ some at)
            × (mark_read now user_id id db ≡ (
              ok (as_read now n),
              record db {
                notifications =
                    modify
                      (λ x. x.id == n.id)
                      (λ x. record x { read_at = read_once now n.read_at })
                      db.notifications;
              },
            )))
  unfolding mark_read
  mark_read_sound now user_id id db keyed =
      elim (find_first-cases (λ n. n.id == id && n.user_id == user_id) db.notifications) [
        | inl (e, _) ↦ inl (ground arith)
        | inr (n, e, met, has) ↦ inr (
          n,
          has,
          ground arith,
          ground arith,
          (λ at h. ground arith),
          ground (
            arith,
            update-key (λ (x : Notification). x.id)
                (λ x. record x { read_at = read_once now n.read_at }) n db.notifications keyed has,
          ),
        )
      ]
