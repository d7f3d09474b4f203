-- ===== src/Notifications/Entities.antt =====
-- src/domain/entities/notification and the inputs of src/domain/types/notification.types.ts
use be.Prelude.{String, Bool, Option, none, some, str_eq, if◌then◌else◌}
use be.Store.{Uuid, Time, Notification, NotificationType}

-- `NotificationPrototype`, with the token and the consent of the user that `create` takes.
pub record NotificationInput : Type 0 where
  pub user_id : Uuid
  pub type : NotificationType
  pub title : String
  pub message : String
  pub related_id : Option Uuid
  pub token : Option String
  pub service_notification_consent : Bool

-- `NotificationEntity.create`, at the id that the generator gave.
abbrev pub notification : NotificationInput → Uuid → Time → Notification
notification proto id std_date = record {
  id = id;
  user_id = proto.user_id;
  type = proto.type;
  title = proto.title;
  message = proto.message;
  created_at = std_date;
  related_id = proto.related_id;
  read_at = none;
}

-- A text that is true as a condition: not null and not empty.
abbrev pub if_truthy : Option String → Option String
if_truthy none = none
if_truthy (some s) = if str_eq s "" then none else some s
