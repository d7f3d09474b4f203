-- ===== src/Feeds/Repository.antt =====
-- The feed repositories of src/infrastructure/repositories/feed: the lookups and the writes.
use be.Prelude.{Bool, false, not, ◌&&◌, Option, none, some, List, ◌==◌, is_some}
use be.Store.{
  Uuid, Feed, FeedImage, FriendFeedVisibility, BlockedFeed, Action, Platform, ⊤, gets, or_throw,
  modify, ◌>>=◌, now, unique_violation, record_not_found,
}

abbrev pub feed_clash : Feed → Feed → Bool
feed_clash f g = f.id == g.id

abbrev pub image_clash : FeedImage → FeedImage → Bool
image_clash f g = f.id == g.id

abbrev pub visibility_clash : FriendFeedVisibility → FriendFeedVisibility → Bool
visibility_clash f g = f.feed_id == g.feed_id && f.user_id == g.user_id

abbrev blocked_clash : BlockedFeed → BlockedFeed → Bool
blocked_clash f g = f.user_id == g.user_id && f.feed_id == g.feed_id

abbrev pub is_id : Option Uuid → Uuid → Bool
is_id none id = false
is_id (some x) id = x == id

-- The rows of the view `active_feed`.
abbrev pub is_active : Feed → Bool
is_active f = not (is_some f.deleted_at)

module _ ⦃p : Platform⦄ where
  -- The feed and its images are one nested write.
  unfoldable pub save : Feed → List FeedImage → Action ⊤
  save feed images = do
    feeds ← gets (λ w. w.feeds)
    feeds' ← or_throw (p.create feed_clash feed feeds) unique_violation
    table ← gets (λ w. w.feed_images)
    table' ← or_throw (p.create_many image_clash images table) unique_violation
    modify (λ w. record w { feeds = feeds'; feed_images = table' })

  unfoldable pub update : Uuid → (Feed → Feed) → Action ⊤
  update id change = do
    table ← gets (λ w. w.feeds)
    table' ← or_throw (p.update (λ f. f.id == id) change table) record_not_found
    modify (λ w. record w { feeds = table' })

  unfoldable pub find_one_by_id : Uuid → Action (Option Feed)
  find_one_by_id id = gets (λ w. p.find_first (λ f. f.id == id && is_active f) w.feeds)

  unfoldable pub find_one_by_id_and_writer : Uuid → Uuid → Action (Option Feed)
  find_one_by_id_and_writer feed_id writer_id =
      gets (λ w.
        p.find_first (λ f. f.id == feed_id && f.writer_id == writer_id && is_active f) w.feeds)

  unfoldable pub find_one_by_gathering_id_and_writer_id : Uuid → Uuid → Action (Option Feed)
  find_one_by_gathering_id_and_writer_id gathering_id writer_id = gets (λ w.
      p.find_first
        (λ f. is_id f.gathering_id gathering_id && f.writer_id == writer_id && is_active f) w.feeds)

  -- A feed is withdrawn, not removed.
  unfoldable pub delete : Uuid → Action ⊤
  unfolding update now
  delete id = do deleted_at ← now; update id (λ f. record f { deleted_at = some deleted_at })

  -- friend-feed-visibilities-prisma.repository.ts
  unfoldable pub save_visibilities : List FriendFeedVisibility → Action ⊤
  save_visibilities rows = do
    table ← gets (λ w. w.friend_feed_visibilities)
    table' ← or_throw (p.create_many visibility_clash rows table) unique_violation
    modify (λ w. record w { friend_feed_visibilities = table' })

  -- blocked-feeds-prisma.repository.ts
  unfoldable pub save_blocked : BlockedFeed → Action ⊤
  save_blocked row = do
    table ← gets (λ w. w.blocked_feeds)
    table' ← or_throw (p.create blocked_clash row table) unique_violation
    modify (λ w. record w { blocked_feeds = table' })

  unfoldable pub delete_blocked : Uuid → Uuid → Action ⊤
  delete_blocked user_id feed_id = do
    table ← gets (λ w. w.blocked_feeds)
    table' ←
        or_throw (p.delete (λ f. f.user_id == user_id && f.feed_id == feed_id) table)
          record_not_found
    modify (λ w. record w { blocked_feeds = table' })
