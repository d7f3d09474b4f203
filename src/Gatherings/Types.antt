-- ===== src/Gatherings/Types.antt =====
-- What the lists and the detail show of gatherings and invitations:
-- src/domain/types/gathering.types.ts.
use be.Prelude.{String, Bool, Option, List}
use be.Store.{Uuid, Time}

-- `Gathering` of the types.
pub record ListedGathering : Type 0 where
  pub id : Uuid
  pub name : String
  pub description : String
  pub gathering_date : Time
  pub invitation_image_url : String

pub record EndedGathering : Type 0 where
  pub id : Uuid
  pub name : String
  pub description : String
  pub gathering_date : Time
  pub invitation_image_url : String
  pub is_feed_posted : Bool

-- A host or a member of a gathering; `none` is the empty id of a withdrawn user.
pub record ShownUser : Type 0 where
  pub id : Option Uuid
  pub account_id : String
  pub name : String
  pub profile_image_url : Option String

pub record GatheringDetail : Type 0 where
  pub id : Uuid
  pub name : String
  pub description : String
  pub gathering_date : Time
  pub invitation_image_url : String
  pub address : String
  pub host_user : ShownUser
  pub members : List ShownUser

pub record ReceivedGatheringInvitation : Type 0 where
  pub id : Uuid
  pub gathering_id : Uuid
  pub name : String
  pub description : String
  pub sender : String
  pub created_at : Time
  pub gathering_date : Time
  pub address : String
  pub invitation_image_url : String
  pub group_name : Option String

pub record SentGatheringInvitation : Type 0 where
  pub gathering_id : Uuid
  pub name : String
  pub description : String
  pub sender : String
  pub created_at : Time
  pub gathering_date : Time
  pub address : String
  pub invitation_image_url : String
  pub group_name : Option String
