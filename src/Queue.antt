-- ===== src/Queue.antt =====
-- lib/utils/queue: the single-producer, single-consumer queues in shared memory. The producer owns
-- an `equeue`, the consumer a `dqueue`; both see the slots, and a slot's type byte says who owns it.
mod Defs
mod Positions
mod Contents
mod Send
mod Recv
mod Tests
unfoldable pub use Defs.*
pub use Contents.{IsQueue, init-IsQueue}
unfoldable pub use Contents.{contents, send, recv, ◌>>=◌}
pub use Send.{send_refines}
pub use Recv.{recv_refines}
