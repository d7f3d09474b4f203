-- ===== src/Feeds/Reader.antt =====
-- src/domain/components/feed/feeds-reader.ts
use be.Store.{Uuid, Feed, Action, Platform, ◌>>=◌, pure, or_throw, feed_not_found}
use be.Prelude.{not, none, some, List, [], map, keep, get, is_some, length, ltb, if◌then◌else◌}
use be.Paging.{Page, DateIdCursor, DateIdPaginationInput}
use be.Cursors.{get_feed_cursor}
use be.Users.Types.{MinimalUser}
use be.Feeds.Types.{ListedFeed, FeedDetail, FeedPaginationInput}
use be.Feeds.Repository
use be.Feeds.Queries

-- `type: 'ALL' | 'MY'`
pub data FeedsType : Type 0 where
  all my : FeedsType

-- The members of a feed without a gathering are the users to whom it is shown.
abbrev pub with_visible : List (Uuid × List MinimalUser) → ListedFeed → ListedFeed
with_visible with_members feed =
    let visible : List MinimalUser = elim (get feed.id with_members) [
      | none ↦ []
      | some users ↦ users
    ] in
    record feed { with_members = if is_some feed.gathering then feed.with_members else visible }

module _ ⦃p : Platform⦄ where
  unfoldable pub get_common_feed_with_member :
      List ListedFeed → Action (List (Uuid × List MinimalUser))
  unfolding Queries.find_visible_users_by_feed_ids
  get_common_feed_with_member feeds =
      let common_feeds = keep (λ feed. not (is_some feed.gathering)) feeds in
      if ltb 0 (length common_feeds)
      then Queries.find_visible_users_by_feed_ids (map (λ feed. feed.id) common_feeds)
      else pure []

  unfoldable pub find_of_type : FeedsType → Uuid → FeedPaginationInput → Action (List ListedFeed)
  unfolding Queries.find_all_by_user_id Queries.find_by_user_id
  find_of_type FeedsType.all user_id input = Queries.find_all_by_user_id user_id input
  find_of_type FeedsType.my user_id input = Queries.find_by_user_id user_id input

  unfoldable pub get_feeds :
      Uuid → FeedPaginationInput → FeedsType → Action (Page ListedFeed DateIdCursor)
  unfolding get_common_feed_with_member find_of_type
  get_feeds user_id input type = do
    feeds ← find_of_type type user_id input
    with_members ← get_common_feed_with_member feeds
    pure (record {
      items = map (with_visible with_members) feeds;
      next_cursor = get_feed_cursor feeds input.limit;
    })

  unfoldable pub read_all : Uuid → FeedPaginationInput → Action (Page ListedFeed DateIdCursor)
  unfolding get_feeds
  read_all user_id input = get_feeds user_id input FeedsType.all

  unfoldable pub read_own : Uuid → FeedPaginationInput → Action (Page ListedFeed DateIdCursor)
  unfolding get_feeds
  read_own user_id input = get_feeds user_id input FeedsType.my

  unfoldable pub read_blocked : Uuid → DateIdPaginationInput → Action (List ListedFeed)
  unfolding Queries.find_blocked_feeds_by_user_id
  read_blocked user_id input = Queries.find_blocked_feeds_by_user_id user_id input

  unfoldable pub read_detail : Uuid → Action FeedDetail
  unfolding Queries.find_detail_by_id
  read_detail id = do or_throw (← Queries.find_detail_by_id id) feed_not_found

  unfoldable pub read_one : Uuid → Action Feed
  unfolding Repository.find_one_by_id
  read_one id = do or_throw (← Repository.find_one_by_id id) feed_not_found

  unfoldable pub read_one_by_gathering_id_and_writer_id : Uuid → Uuid → Action Feed
  unfolding Repository.find_one_by_gathering_id_and_writer_id
  read_one_by_gathering_id_and_writer_id gathering_id writer_id = do
    or_throw (← Repository.find_one_by_gathering_id_and_writer_id gathering_id writer_id)
        feed_not_found
