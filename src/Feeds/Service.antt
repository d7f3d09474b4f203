-- ===== src/Feeds/Service.antt =====
-- src/domain/services/feed/feeds.service.ts
use be.Prelude.{String, not, Option, none, some, List, map, if◌then◌else◌}
use be.Store.{
  Uuid, Time, Feed, FeedImage, FriendFeedVisibility, Action, Platform, ⊤, ◌>>=◌, ◌>>◌, pure, throw,
  throw_if, try_catch, background, now, v4, is_participation_not_found, is_feed_not_found,
  forbidden, duplicate_feed, feed_creation_period_exceeded, gathering_not_completed,
}
use be.Dates.{calc_date_diff, TimeUnit, is_below}
use be.Friends.Checker
use be.Gatherings.Reader as GatheringsReader
use be.Gatherings.InvitationsReader
use be.Feeds.Entities.{FeedPrototype, feed, images, visibilities}
use be.Feeds.Reader
use be.Feeds.Writer
use be.Notifications.Manager

pub record CreateGatheringFeedInput : Type 0 where
  pub writer_id : Uuid
  pub content : String
  pub gathering_id : Uuid

module _ ⦃p : Platform⦄ where
  unfoldable pub check_feed_creation_period : Time → Time → Action ⊤
  unfolding calc_date_diff
  check_feed_creation_period today ended_at =
      throw_if (not (is_below (calc_date_diff today ended_at TimeUnit.d) 30))
        feed_creation_period_exceeded

  unfoldable pub check_is_participation : Uuid → Uuid → Action ⊤
  unfolding InvitationsReader.read_one
  check_is_participation gathering_id writer_id =
      try_catch (InvitationsReader.read_one gathering_id writer_id >> pure tt)
        (λ e. if is_participation_not_found e then throw forbidden else throw e)

  unfoldable pub check_duplicate_feed : Uuid → Uuid → Action ⊤
  unfolding Reader.read_one_by_gathering_id_and_writer_id
  check_duplicate_feed gathering_id writer_id =
      try_catch
        (do
          Reader.read_one_by_gathering_id_and_writer_id gathering_id writer_id
          throw duplicate_feed)
        (λ e. if is_feed_not_found e then pure tt else throw e)

  check_ended : Option Time → Action Time
  check_ended none = throw gathering_not_completed
  check_ended (some ended_at) = pure ended_at

  unfoldable pub check_create_gathering_feed_constraints : Uuid → Uuid → Time → Action ⊤
  unfolding GatheringsReader.read_one check_is_participation check_feed_creation_period
      check_duplicate_feed check_ended
  check_create_gathering_feed_constraints gathering_id writer_id today = do
    gathering ← GatheringsReader.read_one gathering_id
    ended_at ← check_ended gathering.ended_at
    check_is_participation gathering_id writer_id
    check_feed_creation_period today ended_at
    check_duplicate_feed gathering_id writer_id

  unfoldable pub create_gathering_feed : CreateGatheringFeedInput → List String → Time → Action ⊤
  unfolding check_create_gathering_feed_constraints now v4 Writer.create
  create_gathering_feed input image_urls today = do
    check_create_gathering_feed_constraints input.gathering_id input.writer_id today
    std_date ← now
    id ← v4
    rows ← images id 0 std_date image_urls
    Writer.create
        (feed
          (record {
            writer_id = input.writer_id;
            gathering_id = some input.gathering_id;
            content = input.content;
          })
          id std_date)
        rows
    background (Manager.notify_gathering_feed_creation id input.writer_id input.gathering_id)

  unfoldable pub friend_feed_body : Feed → List FeedImage → List FriendFeedVisibility → Action ⊤
  unfolding Writer.create Writer.create_friend_feed_visibilities
  friend_feed_body feed images visibilities = do
    Writer.create feed images
    Writer.create_friend_feed_visibilities visibilities

  unfoldable pub friend_feed_transaction :
      Feed → List FeedImage → List FriendFeedVisibility → Action ⊤
  friend_feed_transaction feed images visibilities =
      p.transactional (friend_feed_body feed images visibilities)

  unfoldable pub create_friend_feed : FeedPrototype → List String → List Uuid → Action ⊤
  unfolding now v4 friend_feed_transaction
  create_friend_feed prototype image_urls friend_ids = do
    Checker.check_is_friend_all prototype.writer_id friend_ids
    std_date ← now
    id ← v4
    rows ← images id 0 std_date image_urls
    friend_feed_transaction (feed prototype id std_date) rows (visibilities id friend_ids std_date)
    background (
        Manager.notify_friend_feed_creation id prototype.writer_id
          (map (λ v. v.user_id) (visibilities id friend_ids std_date)))
