-- ===== src/Notifications.antt =====
-- Notifications (src/domain/components/notification).
pub mod Entities
pub mod Repository
pub mod Writer
pub mod Reader
pub mod Service
pub mod Manager
pub mod Quiet
pub mod Invitations
pub mod Reading
pub mod Pages
