-- ===== src/Correlate.antt =====
-- daemon/src/correlate.rs: one app's traffic from its uid to the interface that it leaves by.
-- `Model` has the messages, `Vpn` the VPN assessment, `Sockets` the Networks that the app's sockets
-- are pinned to, `App` the whole answer; the theorems are in the other children.
pub mod Model
pub mod Vpn
pub mod Sockets
pub mod App
pub mod Bypass
pub mod Assess
pub mod Observed
pub mod Checks
