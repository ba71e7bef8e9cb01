-- ===== src/Udp.antt =====
-- chamelio/protos/udp_fast.c: the UDP fast path.
mod State
mod Find
mod Rx
mod Tx
mod Deq
mod Ring
mod Delivery
mod Balance
mod Ephemeral
mod Sending
mod Tests
mod App
mod Slow
