-- ===== src/Notifications/Repository.antt =====
-- src/infrastructure/repositories/notification/notifications-prisma.repository.ts
use be.Prelude.{Bool, ◌&&◌, not, some, List, ◌==◌, is_some, keep, take}
use be.Paging.{DateIdPaginationInput, before_date_id, last_first}
use be.Store.{
  Uuid, Notification, Action, Platform, ⊤, gets, or_throw, modify, ◌>>=◌, now, unique_violation,
  record_not_found,
}

abbrev pub notification_clash : Notification → Notification → Bool
notification_clash m n = m.id == n.id

module _ ⦃p : Platform⦄ where
  unfoldable pub save : Notification → Action ⊤
  save row = do
    table ← gets (λ w. w.notifications)
    table' ← or_throw (p.create notification_clash row table) unique_violation
    modify (λ w. record w { notifications = table' })

  unfoldable pub save_many : List Notification → Action ⊤
  save_many rows = do
    table ← gets (λ w. w.notifications)
    table' ← or_throw (p.create_many notification_clash rows table) unique_violation
    modify (λ w. record w { notifications = table' })

  unfoldable pub find_all_by_user_id : Uuid → DateIdPaginationInput → Action (List Notification)
  unfolding before_date_id last_first
  find_all_by_user_id user_id input = gets (λ w. take input.limit (
      p.order_by (last_first (λ n. n.created_at) (λ n. n.id)) (
        keep (λ n. n.user_id == user_id && before_date_id input.cursor n.created_at n.id)
          w.notifications)))

  unfoldable pub read_all_by_user_id : Uuid → Action ⊤
  unfolding now
  read_all_by_user_id user_id = do
    read_at ← now
    modify (λ w. record w {
      notifications =
          p.update_many (λ n. n.user_id == user_id && not (is_some n.read_at))
            (λ n. record n { read_at = some read_at }) w.notifications;
    })

  unfoldable pub delete : Uuid → Action ⊤
  delete id = do
    table ← gets (λ w. w.notifications)
    table' ← or_throw (p.delete (λ n. n.id == id) table) record_not_found
    modify (λ w. record w { notifications = table' })

  unfoldable pub delete_all : Uuid → Action ⊤
  delete_all user_id =
      modify (λ w. record w {
        notifications = p.delete_many (λ n. n.user_id == user_id) w.notifications;
      })
