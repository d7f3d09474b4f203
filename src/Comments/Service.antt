-- ===== src/Comments/Service.antt =====
-- src/domain/services/feed-comments/feed-comments.service.ts, with
-- src/domain/entities/feed-comment/feed-comment.entity.ts
use be.Prelude.{String, not, Option, none, some, ◌==◌}
use be.Store.{
  Uuid, Time, FeedComment, Action, Platform, ⊤, ◌>>=◌, ◌>>◌, pure, throw_if, background, now, v4,
  cannot_mention_self, forbidden,
}
use be.Users.Reader as UsersReader
use be.Comments.Reader
use be.Comments.Writer
use be.Notifications.Manager

pub record FeedCommentPrototype : Type 0 where
  pub writer_id : Uuid
  pub feed_id : Uuid
  pub content : String
  pub mentioned_user_id : Option Uuid

-- `FeedCommentEntity.create`, at the id that the generator gave.
abbrev pub feed_comment : FeedCommentPrototype → Uuid → Time → FeedComment
feed_comment proto id std_date = record {
  id = id;
  writer_id = proto.writer_id;
  feed_id = proto.feed_id;
  content = proto.content;
  mentioned_user_id = proto.mentioned_user_id;
  created_at = std_date;
  deleted_at = none;
}

module _ ⦃p : Platform⦄ where
  check_mention : Uuid → Option Uuid → Action ⊤
  unfolding UsersReader.read_one
  check_mention writer_id none = pure tt
  check_mention writer_id (some mentioned_user_id) = do
    throw_if (writer_id == mentioned_user_id) cannot_mention_self
    UsersReader.read_one mentioned_user_id
    pure tt

  unfoldable pub create : FeedCommentPrototype → Action ⊤
  unfolding check_mention now v4 Writer.create
  create prototype = do
    check_mention prototype.writer_id prototype.mentioned_user_id
    std_date ← now
    id ← v4
    Writer.create (feed_comment prototype id std_date)
    background (
        Manager.notify_feed_comment_and_mention prototype.feed_id prototype.writer_id
          prototype.mentioned_user_id)

  unfoldable pub delete : Uuid → Uuid → Action ⊤
  unfolding Reader.read_one Writer.delete
  delete id user_id = do
    comment ← Reader.read_one id
    throw_if (not (comment.writer_id == user_id)) forbidden
    Writer.delete id
