-- ===== src/Reports/FeedReports.antt =====
-- src/domain/components/report/feed-reports-write.service.ts
use be.Store.{Action, Platform, ⊤, ◌>>◌}
use be.Feeds.Blocked
use be.Reports.Entities.{ReportPrototype}
use be.Reports.Repository

module _ ⦃p : Platform⦄ where
  unfoldable pub report_body : ReportPrototype → Action ⊤
  unfolding Repository.save_report Blocked.block
  report_body prototype = do
    Repository.save_report prototype
    Blocked.block prototype.reporter_id prototype.reported_id

  unfoldable pub report : ReportPrototype → Action ⊤
  report prototype = p.transactional (report_body prototype)
