-- ===== src/Tests/States.antt =====
-- A small state: three users, two relations, a group of users 1 and 2, a planned and an ended
-- gathering, a feed with a comment, and a session.
use be.Prelude.{true, false, none, some, [], ◌∷◌, String, Option}
use be.Store.{
  Uuid, Time, User, Friend, FriendStatus, Provider, Group, GroupParticipation,
  GroupParticipationStatus, Gathering, GatheringType, GatheringParticipation,
  GatheringParticipationStatus, Feed, FeedComment, RefreshToken, World,
}

abbrev pub account : Uuid → String → Option Time → User
account id name deleted_at = record {
  id = id;
  email = name;
  name = name;
  account_id = name;
  provider = Provider.google;
  profile_image_url = none;
  terms_of_service_consent = true;
  privacy_policy_consent = true;
  notification_token = some "token";
  created_at = 0;
  updated_at = 0;
  deleted_at = deleted_at;
  service_notification_consent = true;
  marketing_notification_consent = false;
}

abbrev pub relation : Uuid → Uuid → Uuid → FriendStatus → Friend
relation id sender receiver status = record {
  id = id;
  sender_id = sender;
  receiver_id = receiver;
  created_at = 0;
  updated_at = 0;
  status = status;
}

abbrev pub friends_1_2 : Friend
friends_1_2 = relation 50 1 2 FriendStatus.accepted

abbrev pub request_1_3 : Friend
request_1_3 = relation 51 1 3 FriendStatus.pending

abbrev pub club : Group
club = record {
  id = 20;
  name = "club";
  description = "";
  group_image_url = "";
  gathering_count = 0;
  owner_id = 1;
  created_at = 0;
  updated_at = 0;
}

abbrev pub member : Uuid → Uuid → GroupParticipation
member id user = record {
  id = id;
  group_id = 20;
  participant_id = user;
  created_at = 0;
  status = GroupParticipationStatus.accepted;
}

abbrev pub meeting : Uuid → Option Time → Gathering
meeting id ended_at = record {
  id = id;
  type = GatheringType.friend;
  host_user_id = 1;
  group_id = none;
  name = "dinner";
  description = "";
  address = "";
  invitation_image_url = "";
  created_at = 0;
  updated_at = 0;
  gathering_date = 0;
  ended_at = ended_at;
  deleted_at = none;
}

abbrev pub invitation : Uuid → Uuid → Uuid → GatheringParticipationStatus → GatheringParticipation
invitation id gathering user status = record {
  id = id;
  gathering_id = gathering;
  participant_id = user;
  created_at = 0;
  updated_at = 0;
  status = status;
  read_at = none;
}

abbrev pub post : Uuid → Uuid → Option Uuid → Feed
post id writer gathering = record {
  id = id;
  writer_id = writer;
  gathering_id = gathering;
  content = "";
  created_at = 0;
  updated_at = 0;
  deleted_at = none;
}

abbrev pub remark : FeedComment
remark = record {
  id = 70;
  writer_id = 2;
  feed_id = 60;
  content = "";
  mentioned_user_id = none;
  created_at = 0;
  deleted_at = none;
}

abbrev pub session : RefreshToken
session = record { user_id = 1; device_id = "phone"; token = "30d"; created_at = 0; updated_at = 0 }

abbrev pub small : World
small = record {
  users =
      account 1 "a@b.c" none
      ∷ account 2 "b" none
      ∷ account 3 "c" none
      ∷ account 4 "d" (some 5)
      ∷ [];
  friends = friends_1_2 ∷ request_1_3 ∷ [];
  groups = club ∷ [];
  group_participations = member 21 1 ∷ member 22 2 ∷ [];
  gatherings = meeting 30 none ∷ meeting 31 (some 10) ∷ [];
  gathering_participations =
      invitation 40 30 1 GatheringParticipationStatus.accepted
      ∷ invitation 41 30 2 GatheringParticipationStatus.pending
      ∷ invitation 42 31 1 GatheringParticipationStatus.accepted
      ∷ invitation 43 31 2 GatheringParticipationStatus.accepted
      ∷ [];
  feeds = post 60 1 (some 31) ∷ [];
  feed_images = [];
  friend_feed_visibilities = [];
  feed_comments = remark ∷ [];
  blocked_feeds = [];
  blocked_feed_comments = [];
  blocked_users = [];
  reports = [];
  notifications = [];
  refresh_tokens = session ∷ [];
  ticks = 5;
  draws = 0;
  published = [];
}
