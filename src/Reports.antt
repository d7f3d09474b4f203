-- ===== src/Reports.antt =====
-- Reports (src/domain/components/report).
pub mod Entities
pub mod Repository
pub mod FriendReports
pub mod FeedReports
pub mod FeedCommentReports
pub mod GroupReports
pub mod FriendTransitions
pub mod GroupOutcomes
