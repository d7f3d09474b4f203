-- ===== src/Notifications/Writer.antt =====
-- src/domain/components/notification/notifications-writer.ts
use be.Prelude.{List}
use be.Store.{Uuid, Notification, Action, Platform, ⊤, background}
use be.Notifications.Repository

module _ ⦃p : Platform⦄ where
  -- The write is not awaited.
  unfoldable pub create : Notification → Action ⊤
  unfolding Repository.save
  create notification = background (Repository.save notification)

  unfoldable pub create_many : List Notification → Action ⊤
  unfolding Repository.save_many
  create_many notifications = Repository.save_many notifications

  unfoldable pub delete : Uuid → Action ⊤
  unfolding Repository.delete
  delete id = Repository.delete id

  unfoldable pub delete_all : Uuid → Action ⊤
  unfolding Repository.delete_all
  delete_all user_id = Repository.delete_all user_id
