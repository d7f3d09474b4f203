-- ===== src/Notifications/Reader.antt =====
-- src/domain/components/notification/notifications-reader.ts
use be.Store.{Uuid, Notification, Action, Platform, ⊤, ◌>>=◌, pure}
use be.Notifications.Repository
use be.Paging.{Page, DateIdCursor, DateIdPaginationInput}
use be.Cursors.{get_notification_cursor}

module _ ⦃p : Platform⦄ where
  unfoldable pub read : Uuid → DateIdPaginationInput → Action (Page Notification DateIdCursor)
  unfolding Repository.find_all_by_user_id
  read user_id input = do
    notifications ← Repository.find_all_by_user_id user_id input
    pure (record {
      items = notifications;
      next_cursor = get_notification_cursor notifications input.limit;
    })

  unfoldable pub read_all : Uuid → Action ⊤
  unfolding Repository.read_all_by_user_id
  read_all user_id = Repository.read_all_by_user_id user_id
