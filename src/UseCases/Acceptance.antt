-- ===== src/UseCases/Acceptance.antt =====
-- gathering-invitation-acceptance.use-case.ts
use Prim.Native.String.{◌++◌ as append}
use be.Prelude.{some}
use be.Store.{Uuid, NotificationType, Action, Platform, ⊤, ◌>>=◌, ◌>>◌, background}
use be.Users.Reader as UsersReader
use be.Gatherings.Reader as GatheringsReader
use be.Gatherings.InvitationsWriter
use be.Notifications.Manager.{notice}
use be.Notifications.Service as NotificationsService

pub record InvitationAcceptanceInput : Type 0 where
  pub gathering_id : Uuid
  pub invitation_id : Uuid
  pub invitee_id : Uuid

module _ ⦃p : Platform⦄ where
  unfoldable pub notify_invitation : Uuid → Uuid → Action ⊤
  unfolding GatheringsReader.read_one UsersReader.read_one NotificationsService.create_v2
  notify_invitation gathering_id invitee_id = do
    gathering ← GatheringsReader.read_one gathering_id
    host_user ← UsersReader.read_one gathering.host_user_id
    invitee ← UsersReader.read_one invitee_id
    NotificationsService.create_v2 (
        notice host_user NotificationType.gathering_invitation_accepted "초대장 수락"
          (append invitee.name "님이 약속 초대를 수락했어요!") (some gathering.id))

  unfoldable pub execute_invitation : InvitationAcceptanceInput → Action ⊤
  execute_invitation input = do
    InvitationsWriter.accept input.invitation_id input.invitee_id
    background (notify_invitation input.gathering_id input.invitee_id)
