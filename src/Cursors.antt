-- ===== src/Cursors.antt =====
-- src/domain/helpers/get-cursor.ts: the cursor behind a page, which is null unless the page is full.
use be.Prelude.{ℕ, String, Option, List, last_of_page, map_option}
use be.Store.{Notification, Platform}
use be.Paging.{UserCursor, DateIdCursor}
use be.Users.Types.{MinimalUser, SearchedUser}
use be.Friends.Types.{FriendRequest}
use be.Groups.Types.{ListedGroup}
use be.Gatherings.Types.{
  ListedGathering, EndedGathering, ReceivedGatheringInvitation, SentGatheringInvitation,
}
use be.Feeds.Types.{ListedFeed}

abbrev pub get_user_cursor : List MinimalUser → ℕ → Option UserCursor
get_user_cursor users limit =
    map_option (λ u. record { name = u.name; account_id = u.account_id }) (last_of_page users limit)

-- `getUserCursor` for the users of a search.
abbrev pub get_searched_cursor : List SearchedUser → ℕ → Option UserCursor
get_searched_cursor users limit =
    map_option (λ u. record { name = u.name; account_id = u.account_id }) (last_of_page users limit)

abbrev pub get_friend_request_cursor : List FriendRequest → ℕ → Option UserCursor
get_friend_request_cursor requests limit =
    map_option (λ r. record { name = r.sender.name; account_id = r.sender.account_id })
      (last_of_page requests limit)

module _ ⦃p : Platform⦄ where
  abbrev pub get_group_cursor : List ListedGroup → ℕ → Option String
  get_group_cursor groups limit =
      map_option (λ g. p.to_iso_string g.join_date) (last_of_page groups limit)

  abbrev pub get_sent_gathering_invitation_cursor :
      List SentGatheringInvitation → ℕ → Option DateIdCursor
  get_sent_gathering_invitation_cursor invitations limit =
      map_option (λ i. record { created_at = p.to_iso_string i.created_at; id = i.gathering_id })
        (last_of_page invitations limit)

  abbrev pub get_received_gathering_invitation_cursor :
      List ReceivedGatheringInvitation → ℕ → Option DateIdCursor
  get_received_gathering_invitation_cursor invitations limit =
      map_option (λ i. record { created_at = p.to_iso_string i.created_at; id = i.id })
        (last_of_page invitations limit)

  abbrev pub get_gathering_cursor : List ListedGathering → ℕ → Option DateIdCursor
  get_gathering_cursor gatherings limit =
      map_option (λ g. record { created_at = p.to_iso_string g.gathering_date; id = g.id })
        (last_of_page gatherings limit)

  -- `getGatheringCursor` for ended gatherings.
  abbrev pub get_ended_gathering_cursor : List EndedGathering → ℕ → Option DateIdCursor
  get_ended_gathering_cursor gatherings limit =
      map_option (λ g. record { created_at = p.to_iso_string g.gathering_date; id = g.id })
        (last_of_page gatherings limit)

  abbrev pub get_feed_cursor : List ListedFeed → ℕ → Option DateIdCursor
  get_feed_cursor feeds limit =
      map_option (λ f. record { created_at = p.to_iso_string f.created_at; id = f.id })
        (last_of_page feeds limit)

  abbrev pub get_notification_cursor : List Notification → ℕ → Option DateIdCursor
  get_notification_cursor notifications limit =
      map_option (λ n. record { created_at = p.to_iso_string n.created_at; id = n.id })
        (last_of_page notifications limit)
