-- ===== src/Feeds/Entities.antt =====
-- src/domain/entities/feed and the inputs of src/domain/types/feed.types.ts
use be.Prelude.{ℕ, suc, String, Option, none, List, [], ◌∷◌, map}
use be.Store.{
  Uuid, Time, Feed, FeedImage, FriendFeedVisibility, BlockedFeed, Action, Platform, ◌>>=◌, pure, v4,
}

pub record FeedPrototype : Type 0 where
  pub writer_id : Uuid
  pub gathering_id : Option Uuid
  pub content : String

-- `FeedEntity.create`, at the id that the generator gave.
abbrev pub feed : FeedPrototype → Uuid → Time → Feed
feed proto id std_date = record {
  id = id;
  writer_id = proto.writer_id;
  gathering_id = proto.gathering_id;
  content = proto.content;
  created_at = std_date;
  updated_at = std_date;
  deleted_at = none;
}

-- `FriendFeedVisibilityEntity.createBulk`
unfoldable pub visibilities : Uuid → List Uuid → Time → List FriendFeedVisibility
visibilities feed_id friend_ids std_date =
    map (λ id. record { feed_id = feed_id; user_id = id; created_at = std_date }) friend_ids

-- `BlockedFeedEntity.create`
abbrev pub blocked_feed : Uuid → Uuid → Time → BlockedFeed
blocked_feed user_id feed_id std_date = record {
  user_id = user_id;
  feed_id = feed_id;
  created_at = std_date;
}

module _ ⦃p : Platform⦄ where
  -- `FeedImageEntity.createBulk`, from an index on; the feed is that under which the images are saved.
  unfoldable pub images : Uuid → ℕ → Time → List String → Action (List FeedImage)
  unfolding v4
  images feed_id index std_date [] = pure []
  images feed_id index std_date (url ∷ urls) = do
    id ← v4
    rest ← images feed_id (suc index) std_date urls
    pure (
        record { id = id; url = url; index = index; created_at = std_date; feed_id = feed_id }
        ∷ rest)
