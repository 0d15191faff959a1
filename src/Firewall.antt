-- ===== src/Firewall.antt =====
-- daemon/src/collect/firewall.rs: the per-uid rule of netd's eBPF map. `Rule` has the decoding, `Bits`
-- and `Denied` the theorems.
pub mod Rule
pub mod Bits
pub mod Denied
pub mod Checks
