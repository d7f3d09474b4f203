-- ===== src/Reports/FriendReports.antt =====
-- src/domain/components/report/friend-reports-write.service.ts
use be.Prelude.{not}
use be.Store.{Uuid, Action, Platform, ⊤, ◌>>=◌, ◌>>◌, throw_if, now, not_found}
use be.Friends.Reader
use be.Friends.Writer
use be.Friends.Checker.{is_accepted}
use be.Gatherings.InvitationsWriter
use be.Reports.Entities.{ReportPrototype, blocked_user}
use be.Reports.Repository

module _ ⦃p : Platform⦄ where
  unfoldable pub delete_all_pending_gathering_invitation : Uuid → Uuid → Action ⊤
  unfolding InvitationsWriter.delete_pending
  delete_all_pending_gathering_invitation first second =
      InvitationsWriter.delete_pending first second

  unfoldable pub report_body : ReportPrototype → Action ⊤
  unfolding delete_all_pending_gathering_invitation Repository.save_report now
      Repository.save_blocked Writer.delete
  report_body prototype = do
    delete_all_pending_gathering_invitation prototype.reporter_id prototype.reported_id
    Repository.save_report prototype
    created_at ← now
    Repository.save_blocked (blocked_user prototype.reporter_id prototype.reported_id created_at)
    Writer.delete prototype.reporter_id prototype.reported_id

  unfoldable pub report_transaction : ReportPrototype → Action ⊤
  report_transaction prototype = p.transactional (report_body prototype)

  unfoldable pub report : ReportPrototype → Action ⊤
  unfolding Reader.read_one report_transaction
  report prototype = do
    friend_relation ← Reader.read_one prototype.reporter_id prototype.reported_id
    throw_if (not (is_accepted friend_relation.status)) not_found
    report_transaction prototype
