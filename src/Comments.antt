-- ===== src/Comments.antt =====
-- Comments on feeds (src/domain/services/feed-comments).
pub mod Types
pub mod Repository
pub mod Reader
pub mod Writer
pub mod Service
pub mod Authorship
pub mod Listing
