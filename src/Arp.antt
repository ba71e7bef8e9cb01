-- ===== src/Arp.antt =====
-- chamelio/arp/arp.c and chamelio/control/control_arp.c: resolution of addresses.
mod Table
mod Buffer
mod Packets
mod Resolve
mod Flushing
mod Answers
mod Tests
