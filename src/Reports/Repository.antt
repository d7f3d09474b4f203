-- ===== src/Reports/Repository.antt =====
-- src/infrastructure/repositories/report/reports-prisma.repository.ts and
-- src/infrastructure/repositories/user/blocked-users-prisma.repository.ts
use be.Prelude.{Bool, ◌&&◌, ◌==◌}
use be.Store.{
  Report, BlockedUser, Action, Platform, ⊤, gets, or_throw, modify, ◌>>=◌, now, v4,
  unique_violation,
}
use be.Reports.Entities.{ReportPrototype, report_entity}

abbrev pub report_clash : Report → Report → Bool
report_clash r s = r.id == s.id

abbrev pub blocked_clash : BlockedUser → BlockedUser → Bool
blocked_clash u v = u.blocker_id == v.blocker_id && u.blocked_id == v.blocked_id

module _ ⦃p : Platform⦄ where
  unfoldable pub save : Report → Action ⊤
  save row = do
    table ← gets (λ w. w.reports)
    table' ← or_throw (p.create report_clash row table) unique_violation
    modify (λ w. record w { reports = table' })

  unfoldable pub save_blocked : BlockedUser → Action ⊤
  save_blocked row = do
    table ← gets (λ w. w.blocked_users)
    table' ← or_throw (p.create blocked_clash row table) unique_violation
    modify (λ w. record w { blocked_users = table' })

  -- `saveReport` of the report services.
  unfoldable pub save_report : ReportPrototype → Action ⊤
  unfolding now v4 save
  save_report prototype = do std_date ← now; id ← v4; save (report_entity prototype id std_date)
