-- ===== src/Http.antt =====
-- src/common/filters/http-exception.filter.ts: the status of the answer to an exception. The classes
-- of the domain's exceptions are those of src/domain/error/exceptions.
pub mod Statuses
use be.Prelude.{ℕ}
use be.Store.{Error}

-- The classes that the filter tells apart.
pub data ErrorClass : Type 0 where
  http_exception : ℕ → ErrorClass
  not_found_exception bad_request_exception unprocessable_exception conflict_exception other_error :
      ErrorClass

-- `class … extends …`; for an exception of NestJS, its own status.
unfoldable pub class_of : Error → ErrorClass
class_of Error.gathering_not_found = not_found_exception
class_of Error.gathering_participation_not_found = not_found_exception
class_of Error.feed_not_found = not_found_exception
class_of Error.user_not_found = not_found_exception
class_of Error.group_not_found = not_found_exception
class_of Error.friend_not_found = not_found_exception
class_of Error.comment_not_found = not_found_exception
class_of (Error.user_not_registered _) = not_found_exception
class_of Error.already_exist_member = conflict_exception
class_of Error.already_friends = conflict_exception
class_of Error.already_exist_request = conflict_exception
class_of Error.duplicate_feed = conflict_exception
class_of Error.duplicate_email = conflict_exception
class_of Error.duplicate_account_id = conflict_exception
class_of (Error.registerd_other_platform _) = conflict_exception
class_of Error.group_owner_cannot_leave = unprocessable_exception
class_of Error.reported_user_cannot_invite = unprocessable_exception
class_of Error.group_member_limit_exceeded = unprocessable_exception
class_of Error.friendship_required = unprocessable_exception
class_of Error.reported_user_cannot_request = unprocessable_exception
class_of Error.gathering_not_completed = unprocessable_exception
class_of Error.feed_creation_period_exceeded = unprocessable_exception
class_of Error.gathering_creation_past_date = unprocessable_exception
class_of Error.cannot_mention_self = unprocessable_exception
class_of Error.group_or_friend_required = bad_request_exception
class_of Error.bad_request = bad_request_exception
class_of Error.forbidden = http_exception 403
class_of Error.not_found = http_exception 404
class_of Error.unauthorized = http_exception 401
class_of Error.unprocessable_entity = http_exception 422
class_of Error.unique_violation = other_error
class_of Error.record_not_found = other_error
class_of Error.revoke_failed = other_error
class_of Error.oauth_failed = other_error

unfoldable pub get_http_status_from_exception : Error → ℕ
unfolding class_of
get_http_status_from_exception e = elim (class_of e) [
  | http_exception status ↦ status
  | not_found_exception ↦ 404
  | bad_request_exception ↦ 400
  | unprocessable_exception ↦ 422
  | conflict_exception ↦ 409
  | other_error ↦ 500
]
