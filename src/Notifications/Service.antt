-- ===== src/Notifications/Service.antt =====
-- src/domain/components/notification/notifications.service.ts
use be.Prelude.{none, some, List, [], ◌∷◌, if◌then◌else◌}
use be.Store.{
  background, Uuid, Time, Notification, Result, Action, Platform, ⊤, ◌>>=◌, ◌>>◌, pure, now, v4,
}
use be.Notifications.Entities.{NotificationInput, notification, if_truthy}
use be.Notifications.Writer
use be.Notifications.Reader

-- `eventPublisher.publish('notify', …)`, if there is a token and the user consents.
abbrev pub publish : NotificationInput → Action ⊤
publish input w = elim (if_truthy input.token) [
  | none ↦ (Result.ok tt, w)
  | some token ↦ (
    Result.ok tt,
    if input.service_notification_consent
        then record w {
          published =
              record { body = input.message; title = input.title; token = token } ∷ w.published;
        }
        else w,
  )
]

module _ ⦃p : Platform⦄ where
  unfoldable pub create_v2 : NotificationInput → Action ⊤
  unfolding now v4 Writer.create
  create_v2 input = if p.is_test then pure tt else (do
    std_date ← now
    id ← v4
    background (Writer.create (notification input id std_date))
    publish input)

  -- `prototypes.map(…)`
  unfoldable pub new_notifications : Time → List NotificationInput → Action (List Notification)
  unfolding v4
  new_notifications std_date [] = pure []
  new_notifications std_date (proto ∷ rest) = do
    id ← v4
    others ← new_notifications std_date rest
    pure (notification proto id std_date ∷ others)

  unfoldable pub create_notifications : List NotificationInput → Action ⊤
  unfolding now Writer.create_many
  create_notifications prototypes = do
    std_date ← now
    notifications ← new_notifications std_date prototypes
    Writer.create_many notifications

  unfoldable pub read_all : Uuid → Action ⊤
  unfolding Reader.read_all
  read_all user_id = Reader.read_all user_id

  -- The service marks as read where its name says that it deletes.
  unfoldable pub delete : Uuid → Action ⊤
  unfolding Reader.read_all
  delete id = Reader.read_all id

  unfoldable pub delete_all : Uuid → Action ⊤
  unfolding Reader.read_all
  delete_all user_id = Reader.read_all user_id
