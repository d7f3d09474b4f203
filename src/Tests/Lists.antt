-- ===== src/Tests/Lists.antt =====
-- The theorems on the paginated lists at a concrete state.
use be.Prelude.{◌≢◌, ◌≡◌, refl, arith, none, some, [], ◌∷◌, All, ◌+◌}
use be.Store.{Uuid, Time, Notification, NotificationType, World, ok}
use be.Paging.{
  DateIdCursor, UserCursor, DateIdPaginationInput, PaginatedDateRangeInput, PaginationInput, Order,
  Page, IsPage, pages,
}
use be.Users.Types.{minimal, SearchInput}
use be.Notifications.Reader as NotificationsReader
use be.Notifications.Pages as NotificationsPages
use be.Friends.Reader as FriendsReader
use be.Friends.Pages as FriendsPages
use be.Groups.Shown.{IsMember}
use be.Groups.Listing.{IsJoined, read-IsJoined}
use be.Groups.Reader as GroupsReader
use be.Gatherings.Queries.{listed}
use be.Gatherings.Listing.{IsWaiting, IsUnwritten, read-IsWaiting, read_unwritten_feed-IsUnwritten}
use be.Gatherings.Repeats.{pages-stuck_read}
use be.Gatherings.Reader as GatheringsReader
use be.Comments.Listing.{ListsVisible, read_all-IsVisible}
use be.Comments.Reader.{read_all as read_comments}
use be.Users.Searching.{IsFound, search-IsFound}
use be.Users.Reader.{search}
use be.Feeds.Types.{FeedPaginationInput, FeedDetail, ListedFeed}
use be.Feeds.Queries.{detail_of}
use be.Feeds.Visibility.{IsShown}
use be.Feeds.Collected.{comments_on}
use be.Feeds.Shown.{read_all-IsShown}
use be.Feeds.Reader.{read_all as read_feeds, read_detail}
use be.Gatherings.InvitationsReader as InvitationsReader
use be.Gatherings.Invited.{ListsInvited, read_received-IsInvited}
use be.Feeds.Blocked.{block, unblock}
use be.Feeds.Hiding.{unblock-block, read_all-block}
use be.Feeds.Counts.{deleted_on, read_detail-comment_count}
use be.Tests.Tables.{tables}
use be.Tests.States.{small, account, meeting, post, remark}

abbrev note : Uuid → Uuid → Time → Notification
note id user created_at = record {
  id = id;
  user_id = user;
  type = NotificationType.friend_request;
  title = "";
  message = "";
  created_at = created_at;
  related_id = none;
  read_at = none;
}

abbrev noted : World
noted = record small { notifications = note 80 1 2 ∷ note 81 2 2 ∷ note 83 1 3 ∷ note 82 1 2 ∷ [] }

-- A time later than all.
abbrev start : DateIdCursor
start = record { created_at = "xxxxxxxxx"; id = 0 }

pages-behind_example :
    pages (λ c. NotificationsReader.read 1 (record { cursor = c; limit = 2 })) 5 start noted
    ≡ (ok (some (note 83 1 3 ∷ note 80 1 2 ∷ note 82 1 2 ∷ [])), noted)
unfolding tables be.Paging.before_date_id be.Paging.last_first
pages-behind_example =
    NotificationsPages.pages-behind 1 1 5 start noted
      ((refl, (refl, (refl, tt))), ((refl, (refl, tt)), ((refl, tt), (tt, tt)))) (ground arith)

pages-friends_example :
    pages
      (λ c. FriendsReader.read 1 (record { cursor = c; limit = 1 }))
      4
      (record { name = ""; account_id = "" })
      small
    ≡ (ok (some (minimal (account 2 "b" none) ∷ [])), small)
unfolding tables be.Paging.after_user be.Paging.by_name
pages-friends_example =
    FriendsPages.pages-friends 1 0 4 (record { name = ""; account_id = "" }) small
      ((refl, (refl, tt)), ((refl, tt), (tt, tt))) (ground arith)

is_friend_comm_example :
    FriendsPages.is_friend 1 small (account 2 "b" none)
    ≡ FriendsPages.is_friend 2 small (account 1 "a@b.c" none)
is_friend_comm_example =
    FriendsPages.is_friend_comm (account 1 "a@b.c" none) (account 2 "b" none) small

abbrev in_feeds : FeedPaginationInput
in_feeds = record { order = Order.desc; min_date = ""; max_date = "x"; cursor = start; limit = 5 }

read_all-IsShown_example :
    IsPage
      (λ v. IsShown 2 small v × (v.comment_count ≡ comments_on small v.id))
      5
      small
      (read_feeds 2 in_feeds small)
read_all-IsShown_example = read_all-IsShown 2 in_feeds small

abbrev in_groups : PaginationInput
in_groups = record { cursor = "x"; limit = 3 }

read-IsJoined_example :
    IsPage
      (λ g. IsJoined 2 "x" small g.id × All (IsMember small g.id) g.members)
      3
      small
      (GroupsReader.read 2 in_groups small)
read-IsJoined_example = read-IsJoined 2 in_groups small

abbrev in_range : PaginatedDateRangeInput
in_range = record {
  cursor = record { created_at = ""; id = 0 };
  limit = 1;
  min_date = "";
  max_date = "";
}

read-IsWaiting_example :
    IsPage (λ v. IsWaiting 1 in_range small v.id) 1 small (GatheringsReader.read 1 in_range small)
read-IsWaiting_example = read-IsWaiting 1 in_range small

read_unwritten_feed-IsUnwritten_example :
    IsPage
      (λ v. IsUnwritten 2 small v.id)
      5
      small
      (GatheringsReader.read_unwritten_feed 2 (record { cursor = start; limit = 5 }) small)
read_unwritten_feed-IsUnwritten_example =
    read_unwritten_feed-IsUnwritten 2 (record { cursor = start; limit = 5 }) small

read_all-IsVisible_example : ListsVisible 60 1 small (read_comments 60 1 small)
read_all-IsVisible_example = read_all-IsVisible 60 1 small

abbrev for_c : SearchInput
for_c = record {
  pagination_input = record { cursor = record { name = ""; account_id = "" }; limit = 2 };
  search = "c";
}

search-IsFound_example : IsPage (IsFound 1 for_c small) 2 small (search 1 for_c small)
search-IsFound_example = search-IsFound 1 for_c small

-- The page that holds the one planned gathering of user 1, which stands at the end of the range.
planned : GatheringsReader.read 1 in_range small ≡ (
  ok (record {
    items = listed (meeting 30 none) ∷ [];
    next_cursor = some (record { created_at = ""; id = 30 });
  }),
  small,
)
unfolding tables GatheringsReader.read be.Gatherings.Queries.page_ids
planned = refl

pages-stuck_read_example :
    pages (λ c. GatheringsReader.read 1 (record in_range { cursor = c })) 100 in_range.cursor small
    ≡ (ok none, small)
pages-stuck_read_example = pages-stuck_read 1 in_range small 100 _ _ refl planned refl refl

-- The comment on the feed is deleted.
abbrev deleted_comment : World
deleted_comment = record small { feed_comments = record remark { deleted_at = some 9 } ∷ [] }

abbrev shown_detail : FeedDetail
shown_detail = detail_of 60 deleted_comment (post 60 1 (some 31), account 1 "a@b.c" none)

abbrev shown_page : Page ListedFeed DateIdCursor
shown_page = (read_all-IsShown 2 in_feeds deleted_comment).0

read_detail-comment_count_example :
    All
      (λ v.
        v.id ≡ 60 → shown_detail.comment_count ≡ v.comment_count + deleted_on deleted_comment 60)
      shown_page.items
unfolding tables read_detail
read_detail-comment_count_example =
    read_detail-comment_count 2 60 in_feeds deleted_comment shown_detail shown_page refl
      (read_all-IsShown 2 in_feeds deleted_comment).1

read_received-IsInvited_example :
    ListsInvited 2 in_range small (InvitationsReader.read_received 2 in_range small)
read_received-IsInvited_example =
    read_received-IsInvited 2 in_range small
      ((refl, (refl, (refl, tt))), ((refl, (refl, tt)), ((refl, tt), (tt, tt))))

abbrev blocked : World
blocked = (block 2 60 small).1

block_returns : block 2 60 small ≡ (ok tt, blocked)
unfolding tables block
block_returns = refl

unblock-block_example :
    ((unblock 2 60 blocked).0 ≡ ok tt) × ((unblock 2 60 blocked).1.blocked_feeds ≡ [])
unblock-block_example = unblock-block 2 60 small blocked block_returns

read_all-block_example : IsPage (λ v. v.id ≢ 60) 5 blocked (read_feeds 2 in_feeds blocked)
read_all-block_example = read_all-block 2 60 in_feeds small blocked block_returns
