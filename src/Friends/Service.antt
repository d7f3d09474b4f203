-- ===== src/Friends/Service.antt =====
-- src/domain/services/friends/friends.service.ts and src/domain/entities/friend/friend.entity.ts
use be.Store.{Uuid, Time, Friend, FriendStatus, Action, Platform, ⊤, ◌>>=◌, ◌>>◌, now, v4}
use be.Users.Reader as UsersReader
use be.Friends.Checker
use be.Friends.Writer
use be.Gatherings.InvitationsWriter

pub record FriendPrototype : Type 0 where
  pub sender_id : Uuid
  pub receiver_id : Uuid

-- `FriendEntity.create`; the status is left to the default of the column, PENDING.
abbrev pub friend_entity : FriendPrototype → Uuid → Time → Friend
friend_entity proto id std_date = record {
  id = id;
  sender_id = proto.sender_id;
  receiver_id = proto.receiver_id;
  created_at = std_date;
  updated_at = std_date;
  status = FriendStatus.pending;
}

module _ ⦃p : Platform⦄ where
  unfoldable pub request : FriendPrototype → Action ⊤
  unfolding Checker.check_exist_friend UsersReader.read_one now v4 Writer.create
  request prototype = do
    Checker.check_exist_friend prototype.sender_id prototype.receiver_id
    UsersReader.read_one prototype.receiver_id
    std_date ← now
    id ← v4
    Writer.create (friend_entity prototype id std_date)

  unfoldable pub accept : Uuid → Uuid → Action ⊤
  unfolding Checker.check_exist_pending_request now Writer.update_by_id
  accept sender_id receiver_id = do
    friend_request ← Checker.check_exist_pending_request sender_id receiver_id
    updated_at ← now
    Writer.update_by_id friend_request.id
        (λ f. record f { status = FriendStatus.accepted; updated_at = updated_at })

  unfoldable pub reject : Uuid → Uuid → Action ⊤
  unfolding Checker.check_exist_pending_request Writer.delete
  reject sender_id receiver_id = do
    Checker.check_exist_pending_request sender_id receiver_id
    Writer.delete sender_id receiver_id

  unfoldable pub delete_body : Uuid → Uuid → Action ⊤
  unfolding Writer.delete InvitationsWriter.delete_pending
  delete_body friend_user_id user_id = do
    Writer.delete friend_user_id user_id
    InvitationsWriter.delete_pending friend_user_id user_id

  unfoldable pub delete_transaction : Uuid → Uuid → Action ⊤
  unfolding delete_body
  delete_transaction friend_user_id user_id = p.transactional (delete_body friend_user_id user_id)

  unfoldable pub unfriend : Uuid → Uuid → Action ⊤
  unfolding Checker.check_exist_accepted_friend
  unfriend friend_user_id user_id = do
    Checker.check_exist_accepted_friend friend_user_id user_id
    delete_transaction friend_user_id user_id
