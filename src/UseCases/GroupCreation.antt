-- ===== src/UseCases/GroupCreation.antt =====
-- group-creation.use-case.ts
use Prim.Native.String.{◌++◌ as append}
use be.Prelude.{String, List, not, none, ◌==◌, keep}
use be.Store.{Uuid, NotificationType, Action, Platform, ⊤, ◌>>=◌, ◌>>◌, background, for_each}
use be.Users.Reader as UsersReader
use be.Groups.Entities.{GroupPrototype}
use be.Groups.Service as GroupsService
use be.Notifications.Manager.{notice}
use be.Notifications.Service as NotificationsService

module _ ⦃p : Platform⦄ where
  unfoldable pub notify_group : String → Uuid → List Uuid → Action ⊤
  unfolding UsersReader.read_one UsersReader.read_multi NotificationsService.create_v2
  notify_group group_name sender_id invitee_ids = do
    sender ← UsersReader.read_one sender_id
    invitees ← UsersReader.read_multi invitee_ids
    for_each
        (λ invitee. background (
          NotificationsService.create_v2 (
            notice invitee NotificationType.group_invitation "그룹 초대"
              (append sender.name (append "님이 " (append group_name " 그룹에 초대했어요!"))) none)))
        invitees

  unfoldable pub execute_group : GroupPrototype → List Uuid → Action ⊤
  execute_group input invitee_ids = do
    GroupsService.create input invitee_ids
    background (
        notify_group input.name input.owner_id
          (keep (λ invitee_id. not (invitee_id == input.owner_id)) invitee_ids))
