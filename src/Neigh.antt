-- ===== src/Neigh.antt =====
-- daemon/src/collect/neigh.rs: the neighbour table (ARP and NDP). `Table` has the conversion and the dump.
pub mod Table
