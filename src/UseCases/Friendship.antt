-- ===== src/UseCases/Friendship.antt =====
-- friend-request.use-case.ts and friend-acceptance.use-case.ts
use Prim.Native.String.{◌++◌ as append}
use be.Prelude.{none}
use be.Store.{Uuid, NotificationType, Action, Platform, ⊤, ◌>>=◌, ◌>>◌, background}
use be.Users.Reader as UsersReader
use be.Friends.Service.{FriendPrototype}
use be.Friends.Service
use be.Notifications.Manager.{notice}
use be.Notifications.Service as NotificationsService

module _ ⦃p : Platform⦄ where
  unfoldable pub notify_request : Uuid → Uuid → Action ⊤
  unfolding UsersReader.read_one NotificationsService.create_v2
  notify_request sender_id receiver_id = do
    receiver ← UsersReader.read_one receiver_id
    sender ← UsersReader.read_one sender_id
    NotificationsService.create_v2 (
        notice receiver NotificationType.friend_request "친구 요청"
          (append sender.name "님이 친구 요청을 보냈어요!") none)

  unfoldable pub execute_request : FriendPrototype → Action ⊤
  execute_request input = do
    Service.request input
    background (notify_request input.sender_id input.receiver_id)

  unfoldable pub notify_acceptance : Uuid → Uuid → Action ⊤
  unfolding UsersReader.read_one NotificationsService.create_v2
  notify_acceptance sender_id receiver_id = do
    sender ← UsersReader.read_one sender_id
    receiver ← UsersReader.read_one receiver_id
    NotificationsService.create_v2 (
        notice sender NotificationType.friend_request_accepted "친구 수락"
          (append receiver.name "님이 친구 요청을 수락했어요!") none)

  unfoldable pub execute_acceptance : Uuid → Uuid → Action ⊤
  execute_acceptance sender_id receiver_id = do
    Service.accept sender_id receiver_id
    background (notify_acceptance sender_id receiver_id)
