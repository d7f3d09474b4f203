-- ===== src/Comments/Reader.antt =====
-- src/domain/components/feed-comment/feed-comment-reader.ts
use be.Store.{Uuid, FeedComment, Action, Platform, ◌>>=◌, or_throw, comment_not_found}
use be.Prelude.{List}
use be.Comments.Types.{ListedComment}
use be.Comments.Repository

module _ ⦃p : Platform⦄ where
  unfoldable pub read_one : Uuid → Action FeedComment
  unfolding Repository.find_one_by_id
  read_one id = do or_throw (← Repository.find_one_by_id id) comment_not_found

  unfoldable pub read_all : Uuid → Uuid → Action (List ListedComment)
  unfolding Repository.find_by_feed_id
  read_all feed_id user_id = Repository.find_by_feed_id feed_id user_id
