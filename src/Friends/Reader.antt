-- ===== src/Friends/Reader.antt =====
-- src/domain/components/friend/friends-reader.ts
use be.Prelude.{ℕ}
use be.Store.{Uuid, Friend, Action, Platform, ◌>>=◌, pure, or_throw, friend_not_found}
use be.Paging.{Page, UserCursor, UserPaginationInput}
use be.Cursors.{get_user_cursor, get_friend_request_cursor}
use be.Users.Types.{MinimalUser, SearchInput}
use be.Friends.Types.{FriendRequest}
use be.Friends.Repository
use be.Friends.Queries

module _ ⦃p : Platform⦄ where
  unfoldable pub read : Uuid → UserPaginationInput → Action (Page MinimalUser UserCursor)
  unfolding Queries.find_friends_by_user_id
  read user_id input = do
    users ← Queries.find_friends_by_user_id user_id input
    pure (record { items = users; next_cursor = get_user_cursor users input.limit })

  unfoldable pub search : Uuid → SearchInput → Action (Page MinimalUser UserCursor)
  unfolding Queries.find_friends_by_account_id_and_name_containing
  search user_id input = do
    users ← Queries.find_friends_by_account_id_and_name_containing user_id input
    pure
        (record { items = users; next_cursor = get_user_cursor users input.pagination_input.limit })

  unfoldable pub read_received_requests :
      Uuid → UserPaginationInput → Action (Page FriendRequest UserCursor)
  unfolding Queries.find_received_requests_by_user_id
  read_received_requests user_id input = do
    requests ← Queries.find_received_requests_by_user_id user_id input
    pure (record { items = requests; next_cursor = get_friend_request_cursor requests input.limit })

  unfoldable pub read_sent_requests :
      Uuid → UserPaginationInput → Action (Page FriendRequest UserCursor)
  unfolding Queries.find_sent_requests_by_user_id
  read_sent_requests user_id input = do
    requests ← Queries.find_sent_requests_by_user_id user_id input
    pure (record { items = requests; next_cursor = get_friend_request_cursor requests input.limit })

  unfoldable pub read_one : Uuid → Uuid → Action Friend
  unfolding Repository.find_one_by_sender_and_receiver_id
  read_one first second = do
    or_throw (← Repository.find_one_by_sender_and_receiver_id first second) friend_not_found

  unfoldable pub count_requests : Uuid → Action ℕ
  unfolding Repository.count_request
  count_requests user_id = Repository.count_request user_id
