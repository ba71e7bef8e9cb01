-- ===== src/Tcp.antt =====
-- chamelio/protos/tcp_fast.c: the TCP fast path.
mod Packet
mod Sock
mod Seq
mod Inv
mod Context
mod Punt
mod Fill
mod Lookup
mod Rx
mod Tx
mod Deq
mod RxRing
mod TxRing
mod Ack
mod Frames
mod Takes
mod Delivery
mod Stream
mod Steps
mod Keeps
mod RxKeeps
mod Header
mod Send
mod Turn
mod Rewind
mod DeqKeeps
mod Accepts
mod Refused
mod Fixture
mod Tests
mod Flow
mod Slow
