-- ===== src/Auth.antt =====
-- Sessions (src/domain/services/auth, src/domain/components/token).
pub mod TokenRepository
pub mod Service
pub mod Logout
pub mod Refresh
pub mod Login
