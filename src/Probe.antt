-- ===== src/Probe.antt =====
-- Tables with open addressing, as chamelio/netvirt/netvirt_table.c and chamelio/arp/arp.c keep them.
mod Defs
mod Laws
unfoldable pub use Defs.*
pub use Laws.*
