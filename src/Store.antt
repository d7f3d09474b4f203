-- ===== src/Store.antt =====
-- What the code stores, throws and runs on (prisma/schema.prisma, src/domain/error).
mod Rows
mod Errors
mod State
mod Outside
mod Actions
mod Lookups
mod Views
pub use Rows.*
pub use Errors.*
unfoldable pub use State.*
pub use Outside.*
unfoldable pub use Actions.*
pub use Lookups.*
pub use Views.*
