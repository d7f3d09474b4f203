-- ===== src/Users/Queries.antt =====
-- src/infrastructure/repositories/user/users-prisma.repository.ts: the paginated search, the detail
-- and the profile.
use be.Prelude.{
  Bool, true, false, not, ◌&&◌, ◌||◌, Option, none, some, List, map, ◌++◌, ◌==◌, is_some,
  if◌then◌else◌, keep, take, some_of, length, map_option, join, left_join, one_of,
}
use be.Store.{
  Uuid, User, Friend, FriendStatus, GroupParticipation, GroupParticipationStatus,
  GatheringParticipationStatus, World, Action, Platform, gets, active_users, active_feeds,
}
use be.Paging.{after_user, by_name}
use be.Users.Types.{FriendRequestStatus, SearchedUser, UserDetail, Profile, SearchInput}

abbrev pub is_pending : FriendStatus → Bool
is_pending FriendStatus.pending = true
is_pending _ = false

abbrev pub is_accepted : FriendStatus → Bool
is_accepted FriendStatus.accepted = true
is_accepted _ = false

-- The union of the accepted friends' ids that the lists of users select from.
abbrev pub accepted_ids : Uuid → List Friend → List Uuid
accepted_ids user_id friends =
    map (λ f. f.receiver_id) (keep (λ f. f.sender_id == user_id && is_accepted f.status) friends)
    ++ map (λ f. f.sender_id) (keep (λ f. f.receiver_id == user_id && is_accepted f.status) friends)

-- The pending request of the two users, whichever of them sent it.
abbrev pub requested : Uuid → User → Friend → Bool
requested user_id u f =
    ((f.sender_id == user_id && f.receiver_id == u.id)
      || (f.receiver_id == user_id && f.sender_id == u.id))
    && is_pending f.status

-- `CASE WHEN f.sender_id = … THEN 'SENT' WHEN f.receiver_id = … THEN 'RECEIVED' ELSE 'NONE' END`
abbrev pub status_of : Uuid → Option Friend → FriendRequestStatus
status_of user_id none = FriendRequestStatus.none
status_of user_id (some f) =
    if f.sender_id == user_id
    then FriendRequestStatus.sent
    else if f.receiver_id == user_id
    then FriendRequestStatus.received
    else FriendRequestStatus.none

abbrev pub searched : Uuid → User × Option Friend → SearchedUser
searched user_id (u, f) = record {
  id = u.id;
  account_id = u.account_id;
  name = u.name;
  profile_image_url = u.profile_image_url;
  status = status_of user_id f;
}

abbrev is_joined : GroupParticipationStatus → Bool
is_joined GroupParticipationStatus.accepted = true
is_joined _ = false

abbrev is_waiting : GatheringParticipationStatus → Bool
is_waiting GatheringParticipationStatus.pending = true
is_waiting _ = false

-- The accepted relations of a user, of which both users are active.
abbrev pub accepted_relations : Uuid → World → List Friend
accepted_relations id w =
    map (λ row. row.0.0)
      (keep
        (λ row.
          (row.0.0.sender_id == id || row.0.0.receiver_id == id) && is_accepted row.0.0.status)
        (join (λ row receiver. row.0.receiver_id == receiver.id)
          (join (λ f sender. f.sender_id == sender.id) w.friends (active_users w))
          (active_users w)))

abbrev pub accepted_groups : Uuid → World → List GroupParticipation
accepted_groups id w =
    map (λ row. row.0.0)
      (keep (λ row. row.0.0.participant_id == id && is_joined row.0.0.status)
        (join (λ row owner. row.1.owner_id == owner.id)
          (join (λ gp g. gp.group_id == g.id) w.group_participations w.groups) (active_users w)))

module _ ⦃p : Platform⦄ where
  unfoldable pub find_by_account_id_containing : Uuid → SearchInput → Action (List SearchedUser)
  unfolding after_user by_name
  find_by_account_id_containing user_id input = gets (λ w.
      let cursor = input.pagination_input.cursor in
      let rows = left_join (requested user_id) (active_users w) w.friends in
      let blocked = map (λ b. b.blocked_id) (keep (λ b. b.blocker_id == user_id) w.blocked_users) in
      map (searched user_id) (
        take input.pagination_input.limit (
          p.order_by (by_name (λ row. row.0.name) (λ row. row.0.account_id)) (
            keep
              (λ row.
                not (one_of blocked row.0.id)
                && p.like row.0.account_id input.search
                && not (row.0.id == user_id)
                && after_user cursor row.0.name row.0.account_id
                && not (one_of (accepted_ids user_id w.friends) row.0.id))
              rows))))

  unfoldable pub find_detail_by_id : Uuid → Action (Option UserDetail)
  find_detail_by_id id = gets (λ w.
      map_option
        (λ u. record {
          id = u.id;
          account_id = u.account_id;
          feed_count = p.count (λ f. f.writer_id == id) (active_feeds w);
          friend_count = length (accepted_relations id w);
          group_count = length (accepted_groups id w);
          name = u.name;
          email = u.email;
          provider = u.provider;
          profile_image_url = u.profile_image_url;
        })
        (p.find_first (λ u. u.id == id) (active_users w)))

  unfoldable pub find_profile_by_id : Uuid → Action (Option Profile)
  find_profile_by_id id = gets (λ w.
      map_option
        (λ u. record {
          id = u.id;
          account_id = u.account_id;
          email = u.email;
          provider = u.provider;
          name = u.name;
          profile_image_url = u.profile_image_url;
          new_notification_count =
              p.count (λ n. n.user_id == id && not (is_some n.read_at)) w.notifications;
          new_invitation_count =
              p.count
                (λ gp. gp.participant_id == id && not (is_some gp.read_at) && is_waiting gp.status)
                w.gathering_participations;
          has_feed = some_of (λ f. f.writer_id == id) (active_feeds w);
        })
        (p.find_first (λ u. u.id == id) (active_users w)))
