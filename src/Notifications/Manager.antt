-- ===== src/Notifications/Manager.antt =====
-- src/domain/components/notification/notification-manager.ts. What it does runs beside the request
-- that started it, and its errors are only logged.
use Prim.Native.String.{◌++◌ as append}
use be.Prelude.{
  String, Bool, false, not, ◌&&◌, Option, none, some, List, [], ◌∷◌, if◌then◌else◌, ◌==◌, keep,
}
use be.Store.{
  Uuid, User, Feed, NotificationType, Action, Platform, ⊤, ◌>>=◌, ◌>>◌, pure, now, v4, background,
  for_each, try_catch,
}
use be.Users.Reader as UsersReader
use be.Feeds.Reader as FeedsReader
use be.Gatherings.InvitationsReader
use be.Notifications.Entities.{NotificationInput, notification}
use be.Notifications.Writer
use be.Notifications.Service.{publish}

-- A notification to a user, whose token and consent decide whether it is pushed.
abbrev pub notice : User → NotificationType → String → String → Option Uuid → NotificationInput
notice to type title message related_id = record {
  user_id = to.id;
  type = type;
  title = title;
  message = message;
  related_id = related_id;
  token = to.notification_token;
  service_notification_consent = to.service_notification_consent;
}

abbrev pub invitation : User → User → NotificationInput
invitation host_user invitee =
    notice invitee NotificationType.gathering_invitation_received "약속 초대장"
      (append host_user.name "님이 약속 초대장을 보냈어요!") none

abbrev is_mentioned : Option Uuid → Uuid → Bool
is_mentioned none id = false
is_mentioned (some mentioned) id = id == mentioned

-- `try { … } catch (e) { log }`
abbrev logged : Action ⊤ → Action ⊤
logged m = try_catch m (λ _. pure tt)

module _ ⦃p : Platform⦄ where
  unfoldable pub create : NotificationInput → Action ⊤
  unfolding now v4 Writer.create
  create input = do
    std_date ← now
    id ← v4
    background (Writer.create (notification input id std_date))
    (if p.is_test then pure tt else publish input)

  unfoldable pub to_invitees : User → List User → Action ⊤
  unfolding create
  to_invitees host_user invitees =
      for_each (λ invitee. background (create (invitation host_user invitee))) invitees

  unfoldable pub send_gathering_creation : Uuid → List Uuid → Action ⊤
  unfolding UsersReader.read_one UsersReader.read_multi
  send_gathering_creation host_user_id invitee_ids = if p.is_test then pure tt else (do
    host_user ← UsersReader.read_one host_user_id
    invitees ← UsersReader.read_multi (keep (λ id. not (id == host_user_id)) invitee_ids)
    to_invitees host_user invitees)

  unfoldable pub mention : Uuid → User → Option Uuid → Action ⊤
  unfolding UsersReader.read_one create
  mention feed_id comment_writer none = pure tt
  mention feed_id comment_writer (some mention_user_id) = do
    mentioned_user ← UsersReader.read_one mention_user_id
    create (
        notice mentioned_user NotificationType.feed_comment_mentioned "멘션"
          (append comment_writer.name "님이 회원님을 멘션했어요!") (some feed_id))

  unfoldable pub to_writer : Uuid → Feed → User → Option Uuid → User → Uuid → Action ⊤
  unfolding create
  to_writer feed_id feed comment_writer mention_user_id feed_writer writer_id =
      if not (is_mentioned mention_user_id feed.writer_id) && not (feed.writer_id == writer_id)
      then create (
          notice feed_writer NotificationType.feed_comment "댓글"
            (append comment_writer.name "님이 회원님의 피드에 댓글을 달았어요!") (some feed_id))
      else pure tt

  unfoldable pub notify_feed_comment_and_mention : Uuid → Uuid → Option Uuid → Action ⊤
  unfolding FeedsReader.read_one UsersReader.read_one mention to_writer
  notify_feed_comment_and_mention feed_id writer_id mention_user_id =
      if p.is_test
      then pure tt
      else logged (do
        feed ← FeedsReader.read_one feed_id
        feed_writer ← UsersReader.read_one feed.writer_id
        comment_writer ← UsersReader.read_one writer_id
        mention feed_id comment_writer mention_user_id
        to_writer feed_id feed comment_writer mention_user_id feed_writer writer_id)

  unfoldable pub tagged_notice : Uuid → User → User → Action ⊤
  unfolding create
  tagged_notice feed_id writer tagged_user = create (
      notice tagged_user NotificationType.friend_feed_writen "피드"
        (append writer.name "님이 추억 피드를 올렸어요!") (some feed_id))

  unfoldable pub to_tagged : Uuid → User → List User → Action ⊤
  unfolding tagged_notice
  to_tagged feed_id writer tagged_users = for_each (tagged_notice feed_id writer) tagged_users

  unfoldable pub notify_friend_feed_creation : Uuid → Uuid → List Uuid → Action ⊤
  unfolding UsersReader.read_one UsersReader.read_multi
  notify_friend_feed_creation feed_id writer_id [] = pure tt
  notify_friend_feed_creation feed_id writer_id (tagged_user_id ∷ rest) =
      if p.is_test
      then pure tt
      else logged (do
        writer ← UsersReader.read_one writer_id
        tagged_users ← UsersReader.read_multi (tagged_user_id ∷ rest)
        to_tagged feed_id writer tagged_users)

  unfoldable pub feed_notice : Uuid → User → User → Action ⊤
  unfolding create
  feed_notice feed_id writer member = create (
      notice member NotificationType.gathering_feed_writen "피드"
        (append writer.name "님이 약속 추억 피드를 올렸어요!") (some feed_id))

  unfoldable pub to_members : Uuid → Uuid → List User → Action ⊤
  unfolding UsersReader.read_one feed_notice
  to_members feed_id writer_id [] = pure tt
  to_members feed_id writer_id (member ∷ rest) = do
    writer ← UsersReader.read_one writer_id
    for_each (feed_notice feed_id writer) (member ∷ rest)

  unfoldable pub notify_gathering_feed_creation : Uuid → Uuid → Uuid → Action ⊤
  unfolding InvitationsReader.read_participants_with_notice_info
  notify_gathering_feed_creation feed_id writer_id gathering_id =
      if p.is_test
      then pure tt
      else logged (do
        gathering_members ← InvitationsReader.read_participants_with_notice_info gathering_id
        to_members feed_id writer_id
            (keep (λ member. not (member.id == writer_id)) gathering_members))
