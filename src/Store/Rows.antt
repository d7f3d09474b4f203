-- ===== src/Store/Rows.antt =====
-- The rows of the tables (prisma/schema.prisma), with the columns that the code reads or writes.
-- An identifier is a UUID, that is a number of 128 bits; a time is in milliseconds; a column that
-- may be null is an `Option`.
use be.Prelude.{ℕ, String, Bool, Option}

abbrev pub Uuid : Type 0
Uuid = ℕ

-- Milliseconds, as `Date.getTime` gives them.
abbrev pub Time : Type 0
Time = ℕ

pub data Provider : Type 0 where
  google kakao apple : Provider

pub data FriendStatus : Type 0 where
  pending accepted reported : FriendStatus

pub data GroupParticipationStatus : Type 0 where
  accepted reported : GroupParticipationStatus

pub data GatheringParticipationStatus : Type 0 where
  pending accepted rejected : GatheringParticipationStatus

pub data GatheringType : Type 0 where
  group friend : GatheringType

pub data ReportType : Type 0 where
  friend feed group feed_comment : ReportType

pub data NotificationType : Type 0 where
  gathering_invitation_received gathering_invitation_accepted group_invitation friend_request
        friend_request_accepted feed_comment feed_comment_mentioned friend_feed_writen
        gathering_feed_writen :
      NotificationType

pub record User : Type 0 where
  pub id : Uuid
  pub email : String
  pub name : String
  pub account_id : String
  pub provider : Provider
  pub profile_image_url : Option String
  pub terms_of_service_consent : Bool
  pub privacy_policy_consent : Bool
  pub notification_token : Option String
  pub created_at : Time
  pub updated_at : Time
  pub deleted_at : Option Time
  pub service_notification_consent : Bool
  pub marketing_notification_consent : Bool

pub record Friend : Type 0 where
  pub id : Uuid
  pub sender_id : Uuid
  pub receiver_id : Uuid
  pub created_at : Time
  pub updated_at : Time
  pub status : FriendStatus

pub record Group : Type 0 where
  pub id : Uuid
  pub name : String
  pub description : String
  pub group_image_url : String
  pub gathering_count : ℕ
  pub owner_id : Uuid
  pub created_at : Time
  pub updated_at : Time

pub record GroupParticipation : Type 0 where
  pub id : Uuid
  pub group_id : Uuid
  pub participant_id : Uuid
  pub created_at : Time
  pub status : GroupParticipationStatus

pub record Gathering : Type 0 where
  pub id : Uuid
  pub type : GatheringType
  pub host_user_id : Uuid
  pub group_id : Option Uuid
  pub name : String
  pub description : String
  pub address : String
  pub invitation_image_url : String
  pub created_at : Time
  pub updated_at : Time
  pub gathering_date : Time
  pub ended_at : Option Time
  pub deleted_at : Option Time

pub record GatheringParticipation : Type 0 where
  pub id : Uuid
  pub gathering_id : Uuid
  pub participant_id : Uuid
  pub created_at : Time
  pub updated_at : Time
  pub status : GatheringParticipationStatus
  pub read_at : Option Time

pub record Feed : Type 0 where
  pub id : Uuid
  pub writer_id : Uuid
  pub gathering_id : Option Uuid
  pub content : String
  pub created_at : Time
  pub updated_at : Time
  pub deleted_at : Option Time

pub record FeedImage : Type 0 where
  pub id : Uuid
  pub url : String
  pub index : ℕ
  pub created_at : Time
  pub feed_id : Uuid

pub record FriendFeedVisibility : Type 0 where
  pub feed_id : Uuid
  pub user_id : Uuid
  pub created_at : Time

pub record FeedComment : Type 0 where
  pub id : Uuid
  pub writer_id : Uuid
  pub feed_id : Uuid
  pub content : String
  pub mentioned_user_id : Option Uuid
  pub created_at : Time
  pub deleted_at : Option Time

pub record BlockedFeed : Type 0 where
  pub user_id : Uuid
  pub feed_id : Uuid
  pub created_at : Time

pub record BlockedFeedComment : Type 0 where
  pub user_id : Uuid
  pub comment_id : Uuid
  pub created_at : Time

pub record BlockedUser : Type 0 where
  pub blocker_id : Uuid
  pub blocked_id : Uuid
  pub created_at : Time

pub record Notification : Type 0 where
  pub id : Uuid
  pub user_id : Uuid
  pub type : NotificationType
  pub title : String
  pub message : String
  pub created_at : Time
  pub related_id : Option Uuid
  pub read_at : Option Time

pub record Report : Type 0 where
  pub id : Uuid
  pub reporter_id : Uuid
  pub reported_id : Uuid
  pub type : ReportType
  pub reason : String
  pub created_at : Time
  pub updated_at : Time

pub record RefreshToken : Type 0 where
  pub user_id : Uuid
  pub device_id : String
  pub token : String
  pub created_at : Time
  pub updated_at : Time
