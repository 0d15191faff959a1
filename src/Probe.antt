-- ===== src/Probe.antt =====
-- daemon/src/probe/mod.rs: how a probe is routed, and what it results in.
pub mod Context
