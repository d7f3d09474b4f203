-- ===== src/Paging.antt =====
-- Lists that are read page by page: src/shared/types/index.ts, and what a client sees that follows
-- the cursors.
mod Inputs
mod Keys
mod Walk
pub use Inputs.*
unfoldable pub use Keys.*
unfoldable pub use Walk.*
