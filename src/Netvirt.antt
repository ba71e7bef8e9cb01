-- ===== src/Netvirt.antt =====
-- chamelio/netvirt/netvirt_table.c: the tables of the network virtualization.
mod Table
mod History
mod Tests
