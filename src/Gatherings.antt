-- ===== src/Gatherings.antt =====
-- Gatherings and their invitations (src/domain/services/gatherings, src/domain/components/gathering).
pub mod Entities
pub mod Types
pub mod Repository
pub mod Queries
pub mod InvitationQueries
pub mod ParticipationsRepository
pub mod Reader
pub mod Writer
pub mod InvitationsReader
pub mod InvitationsWriter
pub mod Service
pub mod Hosting
pub mod Repeats
pub mod Listing
pub mod Invited
pub mod Answers
pub mod Creation
