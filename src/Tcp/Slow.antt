-- ===== src/Tcp/Slow.antt =====
-- protos/tcp/slow: the TCP slow path, which opens and closes connections for the fast path.
mod State
mod Flow
mod Ports
mod CtlTx
mod AppRes
mod CcInit
mod Timer
mod Listener
mod SockState
mod Timeout
mod RxOpen
mod RxClose
mod RxCtl
mod AppReq
mod Requests
mod Dctcp
mod CcPoll
mod Poll
mod Rate
mod Ready
mod Wire
mod Table
mod Sharing
mod Frames
mod Moves
mod Handshake
mod Move
mod SameSock
mod Machine
mod Expiry
mod Opened
mod Pop
mod Alloc
mod Fixture
mod Tests
