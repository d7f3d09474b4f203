-- ===== src/Feeds/Blocked.antt =====
-- src/domain/components/feed/blocked-feeds.service.ts
use be.Store.{Uuid, Action, Platform, ⊤, ◌>>=◌, pure, now}
use be.Feeds.Entities.{blocked_feed}
use be.Paging.{Page, DateIdCursor, DateIdPaginationInput}
use be.Cursors.{get_feed_cursor}
use be.Feeds.Types.{ListedFeed}
use be.Feeds.Repository
use be.Feeds.Reader

module _ ⦃p : Platform⦄ where
  unfoldable pub block : Uuid → Uuid → Action ⊤
  unfolding now Repository.save_blocked
  block user_id feed_id = do
    std_date ← now
    Repository.save_blocked (blocked_feed user_id feed_id std_date)

  unfoldable pub unblock : Uuid → Uuid → Action ⊤
  unfolding Repository.delete_blocked
  unblock user_id feed_id = Repository.delete_blocked user_id feed_id

  unfoldable pub get_blocked_feeds :
      Uuid → DateIdPaginationInput → Action (Page ListedFeed DateIdCursor)
  unfolding Reader.read_blocked
  get_blocked_feeds user_id input = do
    feeds ← Reader.read_blocked user_id input
    pure (record { items = feeds; next_cursor = get_feed_cursor feeds input.limit })
