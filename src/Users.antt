-- ===== src/Users.antt =====
-- Users (src/domain/services/user, src/domain/components/user).
pub mod Keys
pub mod Types
pub mod Repository
pub mod Queries
pub mod Reader
pub mod Writer
pub mod Service
pub mod Withdrawal
pub mod Searching
pub mod AccountIds
