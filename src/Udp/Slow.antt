-- ===== src/Udp/Slow.antt =====
-- protos/udp/slow/udp_slow.c: the slow path of UDP, its requests.
mod Requests
mod Bound
mod Tests
