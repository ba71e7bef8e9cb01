-- ===== src/Tomgr.antt =====
-- lib/utils/tomgr: the timeouts of a slow path, a binary heap over an array of entries.
mod Defs
mod Order
mod Up
mod Down
mod Ops
mod Cancel
mod Places
mod Tests
unfoldable pub use Defs.*
pub use Order.{IsHeap}
pub use Cancel.{Cancelled, tomgr_cancel_lem}
