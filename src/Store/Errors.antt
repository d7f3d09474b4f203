-- ===== src/Store/Errors.antt =====
-- The exceptions that the code throws (src/domain/error/exceptions), those of NestJS that it throws
-- itself, and the two errors of the database client that writes can meet.
use be.Prelude.{String, Bool, true, false}
use be.Store.Rows.{Provider}

-- What an OAuth provider tells of a user; the body of two of the exceptions.
pub record UserInfo : Type 0 where
  pub email : String
  pub name : String
  pub provider : Provider

pub data Error : Type 0 where
  -- not-found.exception.ts
  gathering_not_found gathering_participation_not_found feed_not_found user_not_found
        group_not_found friend_not_found comment_not_found :
      Error
  user_not_registered : UserInfo → Error
  -- conflice.exception.ts
  already_exist_member already_friends already_exist_request duplicate_feed duplicate_email
        duplicate_account_id :
      Error
  registerd_other_platform : UserInfo → Error
  -- unprocessable.exception.ts
  group_owner_cannot_leave reported_user_cannot_invite group_member_limit_exceeded
        friendship_required reported_user_cannot_request gathering_not_completed
        feed_creation_period_exceeded gathering_creation_past_date cannot_mention_self :
      Error
  -- bad-request.exception.ts
  group_or_friend_required bad_request : Error
  -- exceptions of NestJS
  forbidden not_found unauthorized unprocessable_entity : Error
  -- Prisma: P2002, a unique key is taken; P2025, the row to write is not there
  unique_violation record_not_found : Error
  -- a failed call of another service
  revoke_failed oauth_failed : Error

abbrev pub is_friend_not_found : Error → Bool
is_friend_not_found friend_not_found = true
is_friend_not_found _ = false

abbrev pub is_group_not_found : Error → Bool
is_group_not_found group_not_found = true
is_group_not_found _ = false

abbrev pub is_user_not_found : Error → Bool
is_user_not_found user_not_found = true
is_user_not_found _ = false

abbrev pub is_feed_not_found : Error → Bool
is_feed_not_found feed_not_found = true
is_feed_not_found _ = false

abbrev pub is_participation_not_found : Error → Bool
is_participation_not_found gathering_participation_not_found = true
is_participation_not_found _ = false

abbrev pub is_record_not_found : Error → Bool
is_record_not_found record_not_found = true
is_record_not_found _ = false
