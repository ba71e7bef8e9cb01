-- ===== src/Udp/App.antt =====
-- protos/udp/lib/udp_lib.c: the application's side of the UDP rings.
pub mod State
mod Data
mod Wait
mod Poll
mod Rings
mod Reading
mod Waiting
mod Joining
mod Polling
mod Arrival
mod Tests
