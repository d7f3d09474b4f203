-- ===== src/Feeds.antt =====
-- Feeds, their images and who sees them (src/domain/services/feed, src/domain/components/feed).
pub mod Entities
pub mod Types
pub mod Repository
pub mod Rows
pub mod Queries
pub mod Reader
pub mod Writer
pub mod Blocked
pub mod Service
pub mod Ownership
pub mod Constraints
pub mod Once
pub mod Sharing
pub mod Visibility
pub mod Collected
pub mod Shown
pub mod Hiding
pub mod Counts
