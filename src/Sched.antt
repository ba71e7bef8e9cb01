-- ===== src/Sched.antt =====
-- lib/utils/scheduler: the transmit scheduler, a list sorted by priority that is threaded through
-- an array of entries.
mod Defs
mod Lists
mod Links
mod Insert
mod Order
mod Enter
mod Remove
mod Add
mod Tests
unfoldable pub use Defs.*
