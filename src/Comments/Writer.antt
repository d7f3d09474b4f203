-- ===== src/Comments/Writer.antt =====
-- src/domain/components/feed-comment/feed-comments-writer.ts
use be.Store.{Uuid, FeedComment, Action, Platform, ⊤}
use be.Comments.Repository

module _ ⦃p : Platform⦄ where
  unfoldable pub create : FeedComment → Action ⊤
  unfolding Repository.save
  create comment = Repository.save comment

  unfoldable pub delete : Uuid → Action ⊤
  unfolding Repository.delete
  delete id = Repository.delete id
