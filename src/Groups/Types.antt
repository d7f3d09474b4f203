-- ===== src/Groups/Types.antt =====
-- src/domain/types/group.types.ts: what the list and the detail show of a group.
use be.Prelude.{ℕ, String, List}
use be.Store.{Uuid, Time}
use be.Users.Types.{MinimalUser}

pub record ListedGroup : Type 0 where
  pub id : Uuid
  pub name : String
  pub description : String
  pub gathering_count : ℕ
  pub group_image_url : String
  pub join_date : Time
  pub owner : MinimalUser
  pub members : List MinimalUser
