-- ===== src/Friends/Checker.antt =====
-- src/domain/components/friend/friends-checker.ts
use be.Prelude.{Bool, true, false, not, List, if◌then◌else◌}
use be.Store.{
  Uuid, Friend, FriendStatus, Action, Platform, ⊤, ◌>>=◌, ◌>>◌, pure, throw, throw_if, try_catch,
  for_each, is_friend_not_found, friendship_required, already_friends, already_exist_request,
  reported_user_cannot_request, friend_not_found,
}
use be.Friends.Reader

abbrev pub is_accepted : FriendStatus → Bool
is_accepted FriendStatus.accepted = true
is_accepted _ = false

-- The three tests on the status of an existing relation.
abbrev refuse_existing : FriendStatus → Action ⊤
refuse_existing FriendStatus.accepted = throw already_friends
refuse_existing FriendStatus.pending = throw already_exist_request
refuse_existing FriendStatus.reported = throw reported_user_cannot_request

module _ ⦃p : Platform⦄ where
  unfoldable pub check_is_friend : Uuid → Uuid → Action ⊤
  unfolding Reader.read_one
  check_is_friend user_id friend_id =
      try_catch
        (do
          friend ← Reader.read_one friend_id user_id
          throw_if (not (is_accepted friend.status)) friendship_required)
        (λ e. if is_friend_not_found e then throw friendship_required else throw e)

  -- `Promise.all` over reads: in which order they run does not show but in which refusal is thrown,
  -- and all refusals are the same exception.
  unfoldable pub check_is_friend_all : Uuid → List Uuid → Action ⊤
  check_is_friend_all user_id friend_ids = for_each (check_is_friend user_id) friend_ids

  unfoldable pub check_exist_friend : Uuid → Uuid → Action ⊤
  unfolding Reader.read_one
  check_exist_friend sender receiver =
      try_catch
        (do exist_friend ← Reader.read_one sender receiver; refuse_existing exist_friend.status)
        (λ e. if is_friend_not_found e then pure tt else throw e)

  unfoldable pub check_exist_pending_request : Uuid → Uuid → Action Friend
  unfolding Reader.read_one
  check_exist_pending_request sender receiver = do
    friend_request ← Reader.read_one sender receiver
    throw_if (is_accepted friend_request.status) already_friends
    pure friend_request

  unfoldable pub check_exist_accepted_friend : Uuid → Uuid → Action Friend
  unfolding Reader.read_one
  check_exist_accepted_friend friend_user user = do
    friend ← Reader.read_one friend_user user
    throw_if (not (is_accepted friend.status)) friend_not_found
    pure friend
