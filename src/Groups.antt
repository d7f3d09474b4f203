-- ===== src/Groups.antt =====
-- Groups and their members (src/domain/services/groups, src/domain/components/group).
pub mod Entities
pub mod Types
pub mod Repository
pub mod Queries
pub mod ParticipationsRepository
pub mod Reader
pub mod ParticipationsReader
pub mod Writer
pub mod ParticipationsWriter
pub mod Service
pub mod Members
pub mod Creation
pub mod Ownership
pub mod Shown
pub mod Listing
