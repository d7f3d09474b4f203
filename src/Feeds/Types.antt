-- ===== src/Feeds/Types.antt =====
-- What the lists and the detail show of a feed: src/domain/types/feed.types.ts.
use be.Prelude.{ℕ, String, Option, List}
use be.Store.{Uuid, Time}
use be.Users.Types.{MinimalUser}
use be.Paging.{Order, DateIdCursor}

pub record FeedGathering : Type 0 where
  pub id : Uuid
  pub name : String
  pub gathering_date : Time

-- `Feed` of the types.
pub record ListedFeed : Type 0 where
  pub id : Uuid
  pub content : String
  pub images : List String
  pub writer : MinimalUser
  pub created_at : Time
  pub comment_count : ℕ
  pub gathering : Option FeedGathering
  pub with_members : List MinimalUser

pub record DetailGathering : Type 0 where
  pub id : Uuid
  pub name : String
  pub gathering_date : Time
  pub description : String
  pub invitation_image_url : String

pub record FeedDetail : Type 0 where
  pub id : Uuid
  pub content : String
  pub writer : MinimalUser
  pub gathering_id : Option Uuid
  pub created_at : Time
  pub images : List String
  pub gathering : Option DetailGathering
  pub comment_count : ℕ

pub record FeedPaginationInput : Type 0 where
  pub order : Order
  pub min_date : String
  pub max_date : String
  pub cursor : DateIdCursor
  pub limit : ℕ
