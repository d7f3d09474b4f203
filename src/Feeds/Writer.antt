-- ===== src/Feeds/Writer.antt =====
-- src/domain/components/feed/feeds-writer.ts
use be.Prelude.{String, List, not, is_some}
use be.Store.{
  Uuid, Feed, FeedImage, FriendFeedVisibility, Action, Platform, ⊤, ◌>>=◌, ◌>>◌, throw_if,
  forbidden,
}
use be.Feeds.Repository

module _ ⦃p : Platform⦄ where
  unfoldable pub create : Feed → List FeedImage → Action ⊤
  unfolding Repository.save
  create feed images = Repository.save feed images

  unfoldable pub check_ownership : Uuid → Uuid → Action ⊤
  unfolding Repository.find_one_by_id_and_writer
  check_ownership feed_id owner_id = do
    exist ← Repository.find_one_by_id_and_writer feed_id owner_id
    throw_if (not (is_some exist)) forbidden

  unfoldable pub update_content : String → Uuid → Uuid → Action ⊤
  unfolding check_ownership Repository.update
  update_content content feed_id user_id = do
    check_ownership feed_id user_id
    Repository.update feed_id (λ f. record f { content = content })

  unfoldable pub delete : Uuid → Uuid → Action ⊤
  unfolding check_ownership Repository.delete
  delete id writer_id = do check_ownership id writer_id; Repository.delete id

  unfoldable pub create_friend_feed_visibilities : List FriendFeedVisibility → Action ⊤
  unfolding Repository.save_visibilities
  create_friend_feed_visibilities visibilities = Repository.save_visibilities visibilities
