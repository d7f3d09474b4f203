-- ===== src/Users/Types.antt =====
-- What the lists show of a user: src/domain/types/user.types.ts.
use be.Prelude.{ℕ, String, Bool, Option}
use be.Store.{Uuid, Provider, User}
use be.Paging.{UserPaginationInput}

-- `User` of the types, the least that other parts show of a user.
pub record MinimalUser : Type 0 where
  pub id : Uuid
  pub account_id : String
  pub name : String
  pub profile_image_url : Option String

-- The columns that the queries select.
abbrev pub minimal : User → MinimalUser
minimal u = record {
  id = u.id;
  account_id = u.account_id;
  name = u.name;
  profile_image_url = u.profile_image_url;
}

pub data FriendRequestStatus : Type 0 where
  sent received none : FriendRequestStatus

pub record SearchedUser : Type 0 where
  pub id : Uuid
  pub account_id : String
  pub name : String
  pub profile_image_url : Option String
  pub status : FriendRequestStatus

pub record UserDetail : Type 0 where
  pub id : Uuid
  pub account_id : String
  pub name : String
  pub profile_image_url : Option String
  pub group_count : ℕ
  pub feed_count : ℕ
  pub friend_count : ℕ
  pub email : String
  pub provider : Provider

pub record Profile : Type 0 where
  pub id : Uuid
  pub account_id : String
  pub email : String
  pub provider : Provider
  pub name : String
  pub profile_image_url : Option String
  pub new_notification_count : ℕ
  pub new_invitation_count : ℕ
  pub has_feed : Bool

pub record SearchInput : Type 0 where
  pub pagination_input : UserPaginationInput
  pub search : String
