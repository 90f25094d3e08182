-- ===== src/Session.antt =====
-- A request's database session: the state and the monad, and what `@transactional` guarantees.
mod Monad
pub mod Atomic
pub mod Logic
pub mod Total
pub mod Preserve
pub mod Flushed
pub mod Looks
pub mod Safe
pub mod Settling
unfoldable pub use Monad.*
