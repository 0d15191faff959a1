-- ===== src/Diag.antt =====
-- daemon/src/diag/mod.rs: the checks that the findings interpret. `Builder` has the checks, `State` what they
-- share, `Report` and `Run` a run; `Headline`, `Verdicts`, `Agrees`, `Ids` and `Asked` are about these. The other files
-- have one group of checks each.
pub mod Builder
pub mod State
pub mod Vpn
pub mod Paths
pub mod Sockets
pub mod Framework
pub mod Device
pub mod Address
pub mod Agreement
pub mod Agrees
pub mod Report
pub mod Verdicts
pub mod Headline
pub mod Run
pub mod Ids
pub mod Asked
pub mod Checks
