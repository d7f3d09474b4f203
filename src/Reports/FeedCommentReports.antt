-- ===== src/Reports/FeedCommentReports.antt =====
-- src/domain/components/report/feed-comment-reports-write.service.ts
use be.Store.{Uuid, Time, BlockedFeedComment, Action, Platform, ⊤, ◌>>=◌, ◌>>◌, now, v4}
use be.Comments.Repository as CommentsRepository
use be.Reports.Entities.{ReportPrototype, report_entity}
use be.Reports.Repository

-- `BlockedFeedCommentEntity.create`
abbrev pub blocked_comment : Uuid → Uuid → Time → BlockedFeedComment
blocked_comment user_id comment_id created_at = record {
  user_id = user_id;
  comment_id = comment_id;
  created_at = created_at;
}

module _ ⦃p : Platform⦄ where
  unfoldable pub block_comment : Uuid → Uuid → Time → Action ⊤
  unfolding CommentsRepository.save_blocked
  block_comment user_id comment_id time =
      CommentsRepository.save_blocked (blocked_comment user_id comment_id time)

  unfoldable pub report_body : ReportPrototype → Action ⊤
  unfolding now v4 Repository.save block_comment
  report_body prototype = do
    std_date ← now
    id ← v4
    Repository.save (report_entity prototype id std_date)
    block_comment prototype.reporter_id prototype.reported_id std_date

  unfoldable pub report : ReportPrototype → Action ⊤
  report prototype = p.transactional (report_body prototype)
