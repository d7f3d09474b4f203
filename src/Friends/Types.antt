-- ===== src/Friends/Types.antt =====
-- src/domain/types/friend.types.ts
use be.Store.{Uuid}
use be.Users.Types.{MinimalUser}

pub record FriendRequest : Type 0 where
  pub id : Uuid
  pub sender : MinimalUser
