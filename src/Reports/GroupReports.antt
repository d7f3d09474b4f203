-- ===== src/Reports/GroupReports.antt =====
-- src/domain/components/report/group-reports.write.service.ts
use be.Store.{GroupParticipationStatus, Action, Platform, ⊤, ◌>>◌}
use be.Groups.ParticipationsWriter
use be.Reports.Entities.{ReportPrototype}
use be.Reports.Repository

module _ ⦃p : Platform⦄ where
  unfoldable pub report_body : ReportPrototype → Action ⊤
  unfolding Repository.save_report ParticipationsWriter.update_status
  report_body prototype = do
    Repository.save_report prototype
    ParticipationsWriter.update_status prototype.reported_id prototype.reporter_id
        GroupParticipationStatus.reported

  unfoldable pub report : ReportPrototype → Action ⊤
  report prototype = p.transactional (report_body prototype)
