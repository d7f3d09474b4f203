-- ===== src/Friends/Queries.antt =====
-- src/infrastructure/repositories/friend/friends.prisma.repository.ts: the paginated lists of
-- friends and requests.
use be.Prelude.{not, ◌&&◌, ◌||◌, List, map, ◌==◌, keep, take, join, one_of}
use be.Store.{Uuid, User, Friend, Action, Platform, gets, active_users}
use be.Paging.{UserPaginationInput, after_user, by_name}
use be.Users.Types.{MinimalUser, minimal, SearchInput}
use be.Users.Queries.{accepted_ids}
use be.Friends.Types.{FriendRequest}
use be.Friends.Repository.{is_pending}

-- A row of a list of requests shows the other user, in both lists under `sender`.
abbrev pub shown_request : Friend × User → FriendRequest
shown_request (f, u) = record { id = f.id; sender = minimal u }

module _ ⦃p : Platform⦄ where
  unfoldable pub find_friends_by_user_id : Uuid → UserPaginationInput → Action (List MinimalUser)
  unfolding after_user by_name
  find_friends_by_user_id user_id input = gets (λ w. map minimal (
      take input.limit (
        p.order_by (by_name (λ u. u.name) (λ u. u.account_id)) (
          keep
            (λ u.
              not (u.id == user_id)
              && after_user input.cursor u.name u.account_id
              && one_of (accepted_ids user_id w.friends) u.id)
            (active_users w)))))

  unfoldable pub find_friends_by_account_id_and_name_containing :
      Uuid → SearchInput → Action (List MinimalUser)
  unfolding after_user by_name
  find_friends_by_account_id_and_name_containing user_id input = gets (λ w.
      let paging = input.pagination_input in
      map minimal (
        take paging.limit (
          p.order_by (by_name (λ u. u.name) (λ u. u.account_id)) (
            keep
              (λ u.
                not (u.id == user_id)
                && after_user paging.cursor u.name u.account_id
                && one_of (accepted_ids user_id w.friends) u.id
                && (p.like u.name input.search || p.like u.account_id input.search))
              (active_users w)))))

  unfoldable pub find_received_requests_by_user_id :
      Uuid → UserPaginationInput → Action (List FriendRequest)
  unfolding after_user by_name
  find_received_requests_by_user_id user_id input = gets (λ w. map shown_request (
      take input.limit (
        p.order_by (by_name (λ row. row.1.name) (λ row. row.1.account_id)) (
          keep
            (λ row.
              row.0.receiver_id == user_id
              && is_pending row.0.status
              && after_user input.cursor row.1.name row.1.account_id)
            (join (λ f u. f.sender_id == u.id) w.friends (active_users w))))))

  unfoldable pub find_sent_requests_by_user_id :
      Uuid → UserPaginationInput → Action (List FriendRequest)
  unfolding after_user by_name
  find_sent_requests_by_user_id user_id input = gets (λ w. map shown_request (
      take input.limit (
        p.order_by (by_name (λ row. row.1.name) (λ row. row.1.account_id)) (
          keep
            (λ row.
              row.0.sender_id == user_id
              && is_pending row.0.status
              && after_user input.cursor row.1.name row.1.account_id)
            (join (λ f u. f.receiver_id == u.id) w.friends (active_users w))))))
