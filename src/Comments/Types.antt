-- ===== src/Comments/Types.antt =====
-- src/domain/types/feed-comment.types.ts: what the list shows of a comment.
use be.Prelude.{String, Option}
use be.Store.{Uuid, Time}
use be.Users.Types.{MinimalUser}

pub record ListedComment : Type 0 where
  pub id : Uuid
  pub writer : MinimalUser
  pub content : String
  pub created_at : Time
  pub mentioned_user : Option MinimalUser
