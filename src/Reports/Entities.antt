-- ===== src/Reports/Entities.antt =====
-- src/domain/entities/report/report.entity.ts, the input of src/domain/types/report.types.ts, and
-- src/domain/entities/user/blocked-user.entity.ts
use be.Prelude.{String}
use be.Store.{Uuid, Time, Report, ReportType, BlockedUser}

pub record ReportPrototype : Type 0 where
  pub reporter_id : Uuid
  pub reported_id : Uuid
  pub type : ReportType
  pub reason : String

-- `ReportEntity.create`, at the id that the generator gave.
abbrev pub report_entity : ReportPrototype → Uuid → Time → Report
report_entity proto id std_date = record {
  id = id;
  reporter_id = proto.reporter_id;
  reported_id = proto.reported_id;
  type = proto.type;
  reason = proto.reason;
  created_at = std_date;
  updated_at = std_date;
}

abbrev pub blocked_user : Uuid → Uuid → Time → BlockedUser
blocked_user blocker_id blocked_id created_at = record {
  blocker_id = blocker_id;
  blocked_id = blocked_id;
  created_at = created_at;
}
