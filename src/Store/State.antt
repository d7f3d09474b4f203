-- ===== src/Store/State.antt =====
-- The state that one request reads and writes: the tables, how often the clock and the generator of
-- identifiers have been asked, and the events that were published.
use be.Prelude.{ℕ, String, List, ◌⊎◌, inl, inr, ◌≡◌, refl}
use be.Store.Errors.{Error}
use be.Store.Rows.{
  User, Friend, Group, GroupParticipation, Gathering, GatheringParticipation, Feed, FeedImage,
  FriendFeedVisibility, FeedComment, BlockedFeed, BlockedFeedComment, BlockedUser, Notification,
  Report, RefreshToken,
}

-- The payload of a `notify` event.
pub record NotificationPayload : Type 0 where
  pub body : String
  pub title : String
  pub token : String

pub record World : Type 0 where
  pub users : List User
  pub friends : List Friend
  pub groups : List Group
  pub group_participations : List GroupParticipation
  pub gatherings : List Gathering
  pub gathering_participations : List GatheringParticipation
  pub feeds : List Feed
  pub feed_images : List FeedImage
  pub friend_feed_visibilities : List FriendFeedVisibility
  pub feed_comments : List FeedComment
  pub blocked_feeds : List BlockedFeed
  pub blocked_feed_comments : List BlockedFeedComment
  pub blocked_users : List BlockedUser
  pub reports : List Report
  pub notifications : List Notification
  pub refresh_tokens : List RefreshToken
  pub ticks : ℕ
  pub draws : ℕ
  pub published : List NotificationPayload

-- The state in which a transaction that began in `w` leaves the world when it fails in `w'`. The
-- repositories of notifications and refresh tokens write past the transaction's client, so what
-- they wrote stays.
unfoldable pub rolled_back : World → World → World
rolled_back w w' = record w {
  notifications = w'.notifications;
  refresh_tokens = w'.refresh_tokens;
  ticks = w'.ticks;
  draws = w'.draws;
  published = w'.published;
}

pub data Result (A : Type 0) : Type 0 where
  ok : A → Result A
  err : Error → Result A

-- What a service method does: it returns or throws, in a new state.
abbrev pub Action : Type 0 → Type 0
Action A = World → Result A × World

pub Result-cases :
    {A : Type 0} (o : Result A × World)
    → ((a : A) × (w : World) × (o ≡ (ok a, w))) ⊎ ((e : Error) × (w : World) × (o ≡ (err e, w)))
Result-cases (ok a, w) = inl (a, w, refl)
Result-cases (err e, w) = inr (e, w, refl)
