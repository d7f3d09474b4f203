-- ===== src/UseCases.antt =====
-- The use cases (src/application/use-cases).
pub mod Friendship
pub mod Acceptance
pub mod GroupCreation
pub mod Outcomes
