-- ===== src/Tests/Messages.antt =====
-- The theorems on notifications, statuses and dates at concrete arguments.
use be.Prelude.{ℕ, ◌≡◌, none, [], ◌∷◌, map, refl, how_many, false}
use be.Store.{Notification, NotificationType, World, Platform, ok}
use be.Notifications.Manager.{send_gathering_creation}
use be.Notifications.Service.{delete, delete_all}
use be.Notifications.Reading.{is_unread, delete-notifications}
use be.Notifications.Invitations.{Sent, send_gathering_creation-Sent}
use be.Friends.Service.{request}
use be.UseCases.Friendship.{execute_request}
use be.UseCases.Outcomes.{Adds, execute_request-Adds}
use be.Tests.Tables.{tables}
use be.Tests.States.{small}

abbrev note : ℕ → ℕ → Notification
note id user = record {
  id = id;
  user_id = user;
  type = NotificationType.friend_request;
  title = "";
  message = "";
  created_at = 0;
  related_id = none;
  read_at = none;
}

abbrev unread : World
unread = record small { notifications = note 80 1 ∷ note 81 2 ∷ [] }

delete-notifications_example :
    ((delete 81 unread).0 ≡ ok tt)
    × ((delete 81 unread).1.notifications ≡ unread.notifications)
    × ((delete_all 1 unread).0 ≡ ok tt)
    × (map (λ n. n.id) (delete_all 1 unread).1.notifications ≡ 80 ∷ 81 ∷ [])
    × (how_many (is_unread 1) (delete_all 1 unread).1.notifications ≡ 0)
delete-notifications_example = delete-notifications 81 1 unread refl

-- The same tables where the environment is not the one for tests.
abbrev live : Platform
live = record tables { is_test = false }

send_gathering_creation-Sent_example :
    Sent ⦃p = live⦄ 1
      (1 ∷ 2 ∷ 4 ∷ [])
      2
      "token"
      small
      (send_gathering_creation ⦃p = live⦄ 1 (1 ∷ 2 ∷ 4 ∷ []) small)
send_gathering_creation-Sent_example =
    send_gathering_creation-Sent ⦃p = live⦄ 1 (1 ∷ 2 ∷ 4 ∷ []) 2 "token" small refl (λ m. refl)

execute_request-Adds_example :
    Adds
      (request (record { sender_id = 2; receiver_id = 3 }) small)
      (execute_request (record { sender_id = 2; receiver_id = 3 }) small)
execute_request-Adds_example =
    execute_request-Adds (record { sender_id = 2; receiver_id = 3 }) small
