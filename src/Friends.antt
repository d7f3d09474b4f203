-- ===== src/Friends.antt =====
-- Friends: requests, answers, the end of a friendship, and the relation of two users that the table
-- holds (src/domain/services/friends, src/domain/components/friend).
pub mod Types
pub mod Repository
pub mod Queries
pub mod Reader
pub mod Writer
pub mod Checker
pub mod Service
pub mod Relation
pub mod Transitions
pub mod Verdicts
pub mod Others
pub mod Symmetry
pub mod History
pub mod Pages
